-- ===== src/Runtime/Backends.antt =====
-- controller/src/core/sqlite.rs and lancedb.rs: how a backend is made from a request. What vldb-sqlite
-- and vldb-lancedb do with the options is an argument: the shared runtime, or an error.
use vldb_controller.Base.{ℕ, String, Option, Bool}
use vldb_controller.Types.{I64, ControllerSqliteEnableRequest, ControllerLanceDbEnableRequest}
use vldb_controller.Runtime.Fault.{Result, ok, ◌>>=◌}
use vldb_controller.Runtime.State.{Backend}

-- The option records of vldb-sqlite, as this code fills them.
pub record SqlitePragmaOptions : Type 0 where
  pub journal_mode : String
  pub synchronous : String
  pub foreign_keys : Bool
  pub temp_store : String
  pub wal_autocheckpoint_pages : ℕ
  pub cache_size_kib : I64
  pub mmap_size_bytes : ℕ

pub record SqliteHardeningOptions : Type 0 where
  pub enforce_db_file_lock : Bool
  pub read_only : Bool
  pub allow_uri_filenames : Bool
  pub trusted_schema : Bool
  pub defensive : Bool

pub record SqliteOpenOptions : Type 0 where
  pub connection_pool_size : ℕ
  pub busy_timeout_ms : ℕ
  pub pragmas : SqlitePragmaOptions
  pub hardening : SqliteHardeningOptions

unfoldable pub sqlite_open_options_from_request : ControllerSqliteEnableRequest → SqliteOpenOptions
sqlite_open_options_from_request request = record {
  connection_pool_size = request.connection_pool_size;
  busy_timeout_ms = request.busy_timeout_ms;
  pragmas = record {
    journal_mode = request.journal_mode;
    synchronous = request.synchronous;
    foreign_keys = request.foreign_keys;
    temp_store = request.temp_store;
    wal_autocheckpoint_pages = request.wal_autocheckpoint_pages;
    cache_size_kib = request.cache_size_kib;
    mmap_size_bytes = request.mmap_size_bytes;
  };
  hardening = record {
    enforce_db_file_lock = request.enforce_db_file_lock;
    read_only = request.read_only;
    allow_uri_filenames = request.allow_uri_filenames;
    trusted_schema = request.trusted_schema;
    defensive = request.defensive;
  };
}

-- The option records of vldb-lancedb.
pub record DatabaseRuntimeConfig : Type 0 where
  pub default_db_path : String
  pub db_root : Option String
  pub read_consistency_interval_ms : Option ℕ

pub record LanceDbEngineOptions : Type 0 where
  pub max_upsert_payload : ℕ
  pub max_search_limit : ℕ
  pub max_concurrent_requests : ℕ

unfoldable pub lancedb_runtime_config_from_request :
    ControllerLanceDbEnableRequest → DatabaseRuntimeConfig
lancedb_runtime_config_from_request request = record {
  default_db_path = request.default_db_path;
  db_root = request.db_root;
  read_consistency_interval_ms = request.read_consistency_interval_ms;
}

unfoldable pub lancedb_engine_options_from_request :
    ControllerLanceDbEnableRequest → LanceDbEngineOptions
lancedb_engine_options_from_request request = record {
  max_upsert_payload = request.max_upsert_payload;
  max_search_limit = request.max_search_limit;
  max_concurrent_requests = request.max_concurrent_requests;
}

-- `ControllerSqliteBackend::new`: the runtime is made and the database opened with the same options.
unfoldable pub sqlite_backend_new :
    (SqliteOpenOptions → String → Result ℕ) → ControllerSqliteEnableRequest → Result Backend
sqlite_backend_new open_database request = do
  runtime ← open_database (sqlite_open_options_from_request request) request.db_path
  ok (record { runtime = runtime; path = request.db_path })

-- `ControllerLanceDbBackend::new`: the default path is resolved at once.
unfoldable pub lancedb_backend_new :
    (DatabaseRuntimeConfig → LanceDbEngineOptions → Result ℕ)
    → ControllerLanceDbEnableRequest
    → Result Backend
lancedb_backend_new open_runtime request =
    let config = lancedb_runtime_config_from_request request in
    open_runtime config (lancedb_engine_options_from_request request) >>= λ runtime.
    ok (record { runtime = runtime; path = config.default_db_path })
