-- ===== src/Types/Requests.antt =====
-- client/src/types.rs: the requests that enable a backend, with their defaults.
use vldb_controller.Base.{ℕ, String, Option, none, Bool, true, false, ◌*◌}

-- An `i64`: `negative n` is -(n + 1).
pub data I64 : Type 0 where
  nonnegative negative : ℕ → I64

pub record ControllerSqliteEnableRequest : Type 0 where
  pub space_id : String
  pub binding_id : String
  pub db_path : String
  pub connection_pool_size : ℕ
  pub busy_timeout_ms : ℕ
  pub journal_mode : String
  pub synchronous : String
  pub foreign_keys : Bool
  pub temp_store : String
  pub wal_autocheckpoint_pages : ℕ
  pub cache_size_kib : I64
  pub mmap_size_bytes : ℕ
  pub enforce_db_file_lock : Bool
  pub read_only : Bool
  pub allow_uri_filenames : Bool
  pub trusted_schema : Bool
  pub defensive : Bool

abbrev pub default_sqlite_request : ControllerSqliteEnableRequest
default_sqlite_request = record {
  space_id = "";
  binding_id = "";
  db_path = "";
  connection_pool_size = 8;
  busy_timeout_ms = 5_000;
  journal_mode = "WAL";
  synchronous = "NORMAL";
  foreign_keys = true;
  temp_store = "MEMORY";
  wal_autocheckpoint_pages = 1_000;
  cache_size_kib = nonnegative 65_536;
  mmap_size_bytes = 268_435_456;
  enforce_db_file_lock = true;
  read_only = false;
  allow_uri_filenames = false;
  trusted_schema = false;
  defensive = true;
}

pub record ControllerLanceDbEnableRequest : Type 0 where
  pub space_id : String
  pub binding_id : String
  pub default_db_path : String
  pub db_root : Option String
  pub read_consistency_interval_ms : Option ℕ
  pub max_upsert_payload : ℕ
  pub max_search_limit : ℕ
  pub max_concurrent_requests : ℕ

abbrev pub default_lancedb_request : ControllerLanceDbEnableRequest
default_lancedb_request = record {
  space_id = "";
  binding_id = "";
  default_db_path = "";
  db_root = none;
  read_consistency_interval_ms = none;
  max_upsert_payload = 50 * 1024 * 1024;
  max_search_limit = 10_000;
  max_concurrent_requests = 500;
}
