-- ===== src/Types/Snapshots.antt =====
-- client/src/types.rs: what the controller reports of its state.
use vldb_controller.Base.{ℕ, String, Option, Bool, List}
use vldb_controller.Types.Config.{ControllerProcessMode, SpaceKind}

pub record SpaceBackendStatus : Type 0 where
  pub enabled : Bool
  pub mode : String
  pub target : String

pub record SpaceSnapshot : Type 0 where
  pub space_id : String
  pub space_label : String
  pub space_kind : SpaceKind
  pub space_root : String
  pub attached_clients : ℕ
  pub sqlite : Option SpaceBackendStatus
  pub lancedb : Option SpaceBackendStatus

pub record ClientLeaseSnapshot : Type 0 where
  pub client_session_id : String
  pub client_name : String
  pub host_kind : String
  pub process_id : ℕ
  pub process_name : String
  pub last_seen_unix_ms : ℕ
  pub expires_at_unix_ms : ℕ
  pub attached_space_ids : List String

pub record ControllerStatusSnapshot : Type 0 where
  pub process_mode : ControllerProcessMode
  pub bind_addr : String
  pub started_at_unix_ms : ℕ
  pub last_request_at_unix_ms : ℕ
  pub minimum_uptime_secs : ℕ
  pub idle_timeout_secs : ℕ
  pub default_lease_ttl_secs : ℕ
  pub active_clients : ℕ
  pub attached_spaces : ℕ
  pub inflight_requests : ℕ
  pub shutdown_candidate : Bool
