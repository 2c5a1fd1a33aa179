-- ===== src/Types/Config.antt =====
-- client/src/types.rs: process modes, space kinds, the server configuration and registrations.
use vldb_controller.Base.{ℕ, String, Option}

pub data ControllerProcessMode : Type 0 where
  service managed : ControllerProcessMode

pub data SpaceKind : Type 0 where
  root user project : SpaceKind

pub record ControllerRuntimeConfig : Type 0 where
  pub process_mode : ControllerProcessMode
  pub minimum_uptime_secs : ℕ
  pub idle_timeout_secs : ℕ
  pub default_lease_ttl_secs : ℕ

abbrev pub default_runtime_config : ControllerRuntimeConfig
default_runtime_config = record {
  process_mode = managed;
  minimum_uptime_secs = 300;
  idle_timeout_secs = 900;
  default_lease_ttl_secs = 120;
}

pub record ControllerServerConfig : Type 0 where
  pub bind_addr : String
  pub runtime : ControllerRuntimeConfig

abbrev pub default_server_config : ControllerServerConfig
default_server_config = record { bind_addr = "127.0.0.1:19801"; runtime = default_runtime_config }

pub record SpaceRegistration : Type 0 where
  pub space_id : String
  pub space_label : String
  pub space_kind : SpaceKind
  pub space_root : String

pub record ClientRegistration : Type 0 where
  pub client_name : String
  pub host_kind : String
  pub process_id : ℕ
  pub process_name : String
  pub lease_ttl_secs : Option ℕ
