-- ===== src/Server/Convert.antt =====
-- controller/src/server.rs: between the messages and the types of the registry. `as u32` wraps around.
use mathlib.Core.Option
use vldb_controller.Base.{ℕ, Option, Bool, false, ◌*◌, ◌%◌, ◌^◌, ◌==◌, if◌then◌else◌}
use vldb_controller.Types.{
  I64, nonnegative, negative, ControllerProcessMode, service, managed, SpaceKind, root, user,
  project, SpaceBackendStatus, SpaceSnapshot, ClientLeaseSnapshot, ControllerStatusSnapshot,
  ClientRegistration, ControllerSqliteEnableRequest, ControllerLanceDbEnableRequest,
}
use vldb_controller.Wire.Enums.{match_value, space_kind_arms}
use vldb_controller.Wire.Messages.{
  BackendStatus, ProtoSpaceSnapshot, ProtoClientLeaseSnapshot, ProtoControllerStatusSnapshot,
  RegisterClientRequest, EnableSqliteRequest, EnableLanceDbRequest,
}
use vldb_controller.Server.Status.{
  blank_to_none, zero_as_none, zero_u32_to_default, zero_u64_to_default, default_if_blank,
}

abbrev pub as_u32 : ℕ → ℕ
as_u32 n = n % 2 ^ 32

unfoldable pub map_backend_status : SpaceBackendStatus → BackendStatus
map_backend_status status = record {
  enabled = status.enabled;
  mode = status.mode;
  target = status.target;
}

unfoldable pub map_client_snapshot : ClientLeaseSnapshot → ProtoClientLeaseSnapshot
map_client_snapshot snapshot = record {
  client_session_id = snapshot.client_session_id;
  client_name = snapshot.client_name;
  host_kind = snapshot.host_kind;
  process_id = snapshot.process_id;
  process_name = snapshot.process_name;
  last_seen_unix_ms = snapshot.last_seen_unix_ms;
  expires_at_unix_ms = snapshot.expires_at_unix_ms;
  attached_space_ids = snapshot.attached_space_ids;
}

-- With the numbers that the enumerations of the messages have.
unfoldable pub map_process_mode : ControllerProcessMode → I64
map_process_mode service = nonnegative 1
map_process_mode managed = nonnegative 2

unfoldable pub map_space_kind : SpaceKind → I64
map_space_kind root = nonnegative 1
map_space_kind user = nonnegative 2
map_space_kind project = nonnegative 3

unfoldable pub map_space_snapshot : SpaceSnapshot → ProtoSpaceSnapshot
unfolding map_backend_status map_space_kind
map_space_snapshot snapshot = record {
  space_id = snapshot.space_id;
  space_label = snapshot.space_label;
  space_kind = map_space_kind snapshot.space_kind;
  space_root = snapshot.space_root;
  attached_clients = as_u32 snapshot.attached_clients;
  sqlite = Option.map map_backend_status snapshot.sqlite;
  lancedb = Option.map map_backend_status snapshot.lancedb;
}

abbrev clear_target : BackendStatus → BackendStatus
clear_target status = record status { target = "" }

unfoldable pub map_diagnostic_space_snapshot : SpaceSnapshot → ProtoSpaceSnapshot
unfolding map_space_snapshot
map_diagnostic_space_snapshot snapshot =
    let shown = map_space_snapshot snapshot in
    record shown {
      space_root = "";
      sqlite = Option.map clear_target shown.sqlite;
      lancedb = Option.map clear_target shown.lancedb;
    }

unfoldable pub map_controller_status_snapshot :
    ControllerStatusSnapshot → ProtoControllerStatusSnapshot
unfolding map_process_mode
map_controller_status_snapshot snapshot = record {
  process_mode = map_process_mode snapshot.process_mode;
  bind_addr = snapshot.bind_addr;
  started_at_unix_ms = snapshot.started_at_unix_ms;
  last_request_at_unix_ms = snapshot.last_request_at_unix_ms;
  minimum_uptime_secs = snapshot.minimum_uptime_secs;
  idle_timeout_secs = snapshot.idle_timeout_secs;
  default_lease_ttl_secs = snapshot.default_lease_ttl_secs;
  active_clients = as_u32 snapshot.active_clients;
  attached_spaces = as_u32 snapshot.attached_spaces;
  inflight_requests = as_u32 snapshot.inflight_requests;
  shutdown_candidate = snapshot.shutdown_candidate;
}

-- `none` is the refusal `space_kind must be root, user, or project`.
unfoldable pub map_proto_space_kind : I64 → Option SpaceKind
map_proto_space_kind raw_kind = match_value space_kind_arms raw_kind

-- The registration and the requests that the handlers hand to the runtime.
unfoldable pub registration_of : RegisterClientRequest → ClientRegistration
unfolding zero_as_none
registration_of req = record {
  client_name = req.client_name;
  host_kind = req.host_kind;
  process_id = req.process_id;
  process_name = req.process_name;
  lease_ttl_secs = zero_as_none req.lease_ttl_secs;
}

abbrev pub is_zero : I64 → Bool
is_zero (nonnegative n) = n == 0
is_zero (negative n) = false

unfoldable pub sqlite_request_of : EnableSqliteRequest → ControllerSqliteEnableRequest
unfolding zero_u32_to_default zero_u64_to_default default_if_blank
sqlite_request_of req = record {
  space_id = req.space_id;
  binding_id = req.binding_id;
  db_path = req.db_path;
  connection_pool_size = zero_u32_to_default req.connection_pool_size 8;
  busy_timeout_ms = zero_u64_to_default req.busy_timeout_ms 5_000;
  journal_mode = default_if_blank req.journal_mode "WAL";
  synchronous = default_if_blank req.synchronous "NORMAL";
  foreign_keys = req.foreign_keys;
  temp_store = default_if_blank req.temp_store "MEMORY";
  wal_autocheckpoint_pages = zero_u32_to_default req.wal_autocheckpoint_pages 1_000;
  cache_size_kib = if is_zero req.cache_size_kib then nonnegative 65_536 else req.cache_size_kib;
  mmap_size_bytes = zero_u64_to_default req.mmap_size_bytes 268_435_456;
  enforce_db_file_lock = req.enforce_db_file_lock;
  read_only = req.read_only;
  allow_uri_filenames = req.allow_uri_filenames;
  trusted_schema = req.trusted_schema;
  defensive = req.defensive;
}

unfoldable pub lancedb_request_of : EnableLanceDbRequest → ControllerLanceDbEnableRequest
unfolding zero_u64_to_default zero_as_none blank_to_none
lancedb_request_of req = record {
  space_id = req.space_id;
  binding_id = req.binding_id;
  default_db_path = req.default_db_path;
  db_root = blank_to_none req.db_root;
  read_consistency_interval_ms = zero_as_none req.read_consistency_interval_ms;
  max_upsert_payload = zero_u64_to_default req.max_upsert_payload (50 * 1024 * 1024);
  max_search_limit = zero_u64_to_default req.max_search_limit 10_000;
  max_concurrent_requests = zero_u64_to_default req.max_concurrent_requests 500;
}
