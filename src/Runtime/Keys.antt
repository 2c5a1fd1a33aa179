-- ===== src/Runtime/Keys.antt =====
-- controller/src/core/runtime.rs: how the runtime normalises client identifiers and builds the keys
-- under which it shares backends, and the time arithmetic of leases.
use Prim.Native.String.{◌++◌}
use mathlib.Core.Option
use vldb_controller.Base.{ℕ, suc, String, Option, none, some, if◌then◌else◌}
use vldb_controller.Base.Format.{decimal, show_bool, debug_option, forward_slashes}
use vldb_controller.Base.Text.{is_empty, trim}
use vldb_controller.Base.Word.{saturating_mul, wrapping_add}
use vldb_controller.Types.{
  I64, nonnegative, negative, ControllerSqliteEnableRequest, ControllerLanceDbEnableRequest,
}

abbrev non_empty : String → Option String
non_empty s = if is_empty s then none else some s

unfoldable pub normalize_client_id : Option String → Option String
normalize_client_id none = none
normalize_client_id (some client_id) = non_empty (trim client_id)

unfoldable pub normalize_resource_path : String → String
normalize_resource_path path = forward_slashes (trim path)

abbrev show_i64 : I64 → String
show_i64 (nonnegative n) = decimal n
show_i64 (negative n) = "-" ++ decimal (suc n)

unfoldable pub sqlite_resource_key_from_request : ControllerSqliteEnableRequest → String
sqlite_resource_key_from_request request = normalize_resource_path request.db_path

unfoldable pub sqlite_resource_config_key_from_request : ControllerSqliteEnableRequest → String
sqlite_resource_config_key_from_request r =
    "pool="
    ++ decimal r.connection_pool_size
    ++ "|busy_timeout_ms="
    ++ decimal r.busy_timeout_ms
    ++ "|journal_mode="
    ++ r.journal_mode
    ++ "|synchronous="
    ++ r.synchronous
    ++ "|foreign_keys="
    ++ show_bool r.foreign_keys
    ++ "|temp_store="
    ++ r.temp_store
    ++ "|wal_autocheckpoint_pages="
    ++ decimal r.wal_autocheckpoint_pages
    ++ "|cache_size_kib="
    ++ show_i64 r.cache_size_kib
    ++ "|mmap_size_bytes="
    ++ decimal r.mmap_size_bytes
    ++ "|enforce_db_file_lock="
    ++ show_bool r.enforce_db_file_lock
    ++ "|read_only="
    ++ show_bool r.read_only
    ++ "|allow_uri_filenames="
    ++ show_bool r.allow_uri_filenames
    ++ "|trusted_schema="
    ++ show_bool r.trusted_schema
    ++ "|defensive="
    ++ show_bool r.defensive

abbrev lancedb_key : Option String → String → String
lancedb_key none default_db_path = default_db_path
lancedb_key (some db_root) default_db_path = "root=" ++ db_root ++ "|default=" ++ default_db_path

abbrev filter_non_empty : Option String → Option String
filter_non_empty none = none
filter_non_empty (some s) = non_empty s

unfoldable pub lancedb_resource_key_from_request : ControllerLanceDbEnableRequest → String
lancedb_resource_key_from_request request =
    lancedb_key (filter_non_empty (Option.map normalize_resource_path request.db_root))
      (normalize_resource_path request.default_db_path)

unfoldable pub lancedb_resource_config_key_from_request : ControllerLanceDbEnableRequest → String
lancedb_resource_config_key_from_request r =
    "read_consistency_interval_ms="
    ++ debug_option r.read_consistency_interval_ms
    ++ "|max_upsert_payload="
    ++ decimal r.max_upsert_payload
    ++ "|max_search_limit="
    ++ decimal r.max_search_limit
    ++ "|max_concurrent_requests="
    ++ decimal r.max_concurrent_requests

unfoldable pub seconds_to_ms : ℕ → ℕ
seconds_to_ms seconds = saturating_mul seconds 1_000

-- `now_unix_ms + seconds_to_ms(lease_ttl_secs)`, an addition that wraps in the release profile.
unfoldable pub lease_expiry : ℕ → ℕ → ℕ
lease_expiry now_unix_ms lease_ttl_secs = wrapping_add now_unix_ms (seconds_to_ms lease_ttl_secs)
