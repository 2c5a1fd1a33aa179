-- ===== src/Wire/Messages.antt =====
-- proto/v1/controller.proto: the messages of the control plane. An enumeration is its number, a message
-- in a message is optional.
use vldb_controller.Base.{ℕ, String, Bool, Option, List}
use vldb_controller.Types.{I64}

pub record BackendStatus : Type 0 where
  pub enabled : Bool
  pub mode : String
  pub target : String

pub record ProtoSpaceSnapshot : Type 0 where
  pub space_id : String
  pub space_label : String
  pub space_kind : I64
  pub space_root : String
  pub attached_clients : ℕ
  pub sqlite : Option BackendStatus
  pub lancedb : Option BackendStatus

pub record ProtoClientLeaseSnapshot : Type 0 where
  pub client_session_id : String
  pub client_name : String
  pub host_kind : String
  pub process_id : ℕ
  pub process_name : String
  pub last_seen_unix_ms : ℕ
  pub expires_at_unix_ms : ℕ
  pub attached_space_ids : List String

pub record ProtoControllerStatusSnapshot : Type 0 where
  pub process_mode : I64
  pub bind_addr : String
  pub started_at_unix_ms : ℕ
  pub last_request_at_unix_ms : ℕ
  pub minimum_uptime_secs : ℕ
  pub idle_timeout_secs : ℕ
  pub default_lease_ttl_secs : ℕ
  pub active_clients : ℕ
  pub attached_spaces : ℕ
  pub inflight_requests : ℕ
  pub shutdown_candidate : Bool

pub record RegisterClientRequest : Type 0 where
  pub client_name : String
  pub host_kind : String
  pub process_id : ℕ
  pub process_name : String
  pub lease_ttl_secs : ℕ

pub record RenewClientLeaseRequest : Type 0 where
  pub client_session_id : String
  pub lease_ttl_secs : ℕ

pub record AttachSpaceRequest : Type 0 where
  pub client_session_id : String
  pub space_id : String
  pub space_label : String
  pub space_kind : I64
  pub space_root : String

pub record DetachSpaceRequest : Type 0 where
  pub client_session_id : String
  pub space_id : String

pub record EnableSqliteRequest : Type 0 where
  pub client_session_id : String
  pub space_id : String
  pub binding_id : String
  pub db_path : String
  pub connection_pool_size : ℕ
  pub busy_timeout_ms : ℕ
  pub journal_mode : String
  pub synchronous : String
  pub foreign_keys : Bool
  pub temp_store : String
  pub wal_autocheckpoint_pages : ℕ
  pub cache_size_kib : I64
  pub mmap_size_bytes : ℕ
  pub enforce_db_file_lock : Bool
  pub read_only : Bool
  pub allow_uri_filenames : Bool
  pub trusted_schema : Bool
  pub defensive : Bool

pub record EnableLanceDbRequest : Type 0 where
  pub client_session_id : String
  pub space_id : String
  pub binding_id : String
  pub default_db_path : String
  pub db_root : String
  pub read_consistency_interval_ms : ℕ
  pub max_upsert_payload : ℕ
  pub max_search_limit : ℕ
  pub max_concurrent_requests : ℕ

pub record DisableBackendRequest : Type 0 where
  pub client_session_id : String
  pub space_id : String
  pub binding_id : String
