-- ===== src/Client/Calls.antt =====
-- client/src/client.rs: the calls of the controller, the messages that the client makes for them, and what it
-- reads in the answers.
use mathlib.Core.Option
use Prim.Native.Char.{code}
use Prim.Native.String.{String, ◌++◌}
use vldb_controller.Base.{
  Option, none, some, Bool, true, false, ◌||◌, ◌&&◌, ◌==◌, ◌%◌, ◌^◌, unwrap_or,
}
use vldb_controller.Base.Except.{Except, success, failure}
use vldb_controller.Types.{
  I64, nonnegative, SpaceKind, root, user, project, SpaceBackendStatus, SpaceSnapshot,
  ClientLeaseSnapshot, ControllerStatusSnapshot, ClientRegistration, SpaceRegistration,
  ControllerSqliteEnableRequest, ControllerLanceDbEnableRequest,
}
use vldb_controller.Wire.Enums.{
  match_value, space_kind_arms, show_number, process_mode_from_proto_value,
}
use vldb_controller.Wire.Messages.{
  BackendStatus, ProtoSpaceSnapshot, ProtoClientLeaseSnapshot, ProtoControllerStatusSnapshot,
  RegisterClientRequest, RenewClientLeaseRequest, AttachSpaceRequest, DetachSpaceRequest,
  EnableSqliteRequest, EnableLanceDbRequest, DisableBackendRequest,
}
use vldb_controller.Server.Status.{Status, Code, invalid_argument}

-- The calls of the control plane that change the controller's state.
pub data Rpc : Type 0 where
  register_client : RegisterClientRequest → Rpc
  renew_client_lease : RenewClientLeaseRequest → Rpc
  unregister_client : String → Rpc
  attach_space : AttachSpaceRequest → Rpc
  detach_space : DetachSpaceRequest → Rpc
  enable_sqlite : EnableSqliteRequest → Rpc
  disable_sqlite : DisableBackendRequest → Rpc
  enable_lance_db : EnableLanceDbRequest → Rpc
  disable_lance_db : DisableBackendRequest → Rpc

-- What the client reads of an answer.
abbrev pub Answer : Rpc → Type 0
Answer (register_client req) = Option ProtoClientLeaseSnapshot
Answer (renew_client_lease req) = Unit
Answer (unregister_client id) = Bool
Answer (attach_space req) = Option ProtoSpaceSnapshot
Answer (detach_space req) = Bool
Answer (enable_sqlite req) = Unit
Answer (disable_sqlite req) = Bool
Answer (enable_lance_db req) = Unit
Answer (disable_lance_db req) = Bool

-- A failed call, or an error of the client's own.
pub data ClientError : Type 0 where
  failed : Status → ClientError
  invalid_input : String → ClientError

-- `text.starts_with(prefix)` and `text.contains(part)`.
unfoldable pub starts_with : String → String → Bool
starts_with text String.[] = true
starts_with String.[] (String.◌∷◌ d prefix) = false
starts_with (String.◌∷◌ c text) (String.◌∷◌ d prefix) =
    (code c == code d) && starts_with text prefix

unfoldable pub contains : String → String → Bool
unfolding starts_with
contains String.[] part = starts_with String.[] part
contains (String.◌∷◌ c text) part = starts_with (String.◌∷◌ c text) part || contains text part

abbrev pub is_invalid_argument : Code → Bool
is_invalid_argument invalid_argument = true
is_invalid_argument _ = false

unfoldable pub is_missing_client_session_status : Status → Bool
unfolding contains
is_missing_client_session_status status =
    is_invalid_argument status.code && contains status.text "is not registered"

unfoldable pub map_space_kind : SpaceKind → I64
map_space_kind root = nonnegative 1
map_space_kind user = nonnegative 2
map_space_kind project = nonnegative 3

abbrev pub map_backend : BackendStatus → SpaceBackendStatus
map_backend backend = record {
  enabled = backend.enabled;
  mode = backend.mode;
  target = backend.target;
}

unfoldable pub map_space_snapshot : ProtoSpaceSnapshot → Except String SpaceSnapshot
map_space_snapshot snapshot = elim (match_value space_kind_arms snapshot.space_kind) [
  | some kind ↦ success (record {
    space_id = snapshot.space_id;
    space_label = snapshot.space_label;
    space_kind = kind;
    space_root = snapshot.space_root;
    attached_clients = snapshot.attached_clients;
    sqlite = Option.map map_backend snapshot.sqlite;
    lancedb = Option.map map_backend snapshot.lancedb;
  })
  | none ↦
      failure ("unsupported protobuf space kind value `" ++ show_number snapshot.space_kind ++ "`")
]

unfoldable pub map_client_snapshot : ProtoClientLeaseSnapshot → ClientLeaseSnapshot
map_client_snapshot snapshot = record {
  client_session_id = snapshot.client_session_id;
  client_name = snapshot.client_name;
  host_kind = snapshot.host_kind;
  process_id = snapshot.process_id;
  process_name = snapshot.process_name;
  last_seen_unix_ms = snapshot.last_seen_unix_ms;
  expires_at_unix_ms = snapshot.expires_at_unix_ms;
  attached_space_ids = snapshot.attached_space_ids;
}

-- What `get_status` makes of the payload.
unfoldable pub read_status :
    Option ProtoControllerStatusSnapshot → Except String ControllerStatusSnapshot
unfolding process_mode_from_proto_value
read_status none = failure "controller status payload is missing"
read_status (some status) = elim (process_mode_from_proto_value status.process_mode) [
  | failure e ↦ failure e
  | success mode ↦ success (record {
    process_mode = mode;
    bind_addr = status.bind_addr;
    started_at_unix_ms = status.started_at_unix_ms;
    last_request_at_unix_ms = status.last_request_at_unix_ms;
    minimum_uptime_secs = status.minimum_uptime_secs;
    idle_timeout_secs = status.idle_timeout_secs;
    default_lease_ttl_secs = status.default_lease_ttl_secs;
    active_clients = status.active_clients;
    attached_spaces = status.attached_spaces;
    inflight_requests = status.inflight_requests;
    shutdown_candidate = status.shutdown_candidate;
  })
]

-- The messages. A session identifier is put on each; `as u32` wraps around, `as u64` does not.
unfoldable pub register_request : ClientRegistration → RegisterClientRequest
register_request registration = record {
  client_name = registration.client_name;
  host_kind = registration.host_kind;
  process_id = registration.process_id;
  process_name = registration.process_name;
  lease_ttl_secs = unwrap_or registration.lease_ttl_secs 0;
}

unfoldable pub attach_request : String → SpaceRegistration → AttachSpaceRequest
unfolding map_space_kind
attach_request client_session_id registration = record {
  client_session_id = client_session_id;
  space_id = registration.space_id;
  space_label = registration.space_label;
  space_kind = map_space_kind registration.space_kind;
  space_root = registration.space_root;
}

unfoldable pub enable_sqlite_request : String → ControllerSqliteEnableRequest → EnableSqliteRequest
enable_sqlite_request client_session_id request = record {
  client_session_id = client_session_id;
  space_id = request.space_id;
  binding_id = request.binding_id;
  db_path = request.db_path;
  connection_pool_size = request.connection_pool_size % 2 ^ 32;
  busy_timeout_ms = request.busy_timeout_ms;
  journal_mode = request.journal_mode;
  synchronous = request.synchronous;
  foreign_keys = request.foreign_keys;
  temp_store = request.temp_store;
  wal_autocheckpoint_pages = request.wal_autocheckpoint_pages;
  cache_size_kib = request.cache_size_kib;
  mmap_size_bytes = request.mmap_size_bytes;
  enforce_db_file_lock = request.enforce_db_file_lock;
  read_only = request.read_only;
  allow_uri_filenames = request.allow_uri_filenames;
  trusted_schema = request.trusted_schema;
  defensive = request.defensive;
}

unfoldable pub enable_lance_db_request :
    String → ControllerLanceDbEnableRequest → EnableLanceDbRequest
enable_lance_db_request client_session_id request = record {
  client_session_id = client_session_id;
  space_id = request.space_id;
  binding_id = request.binding_id;
  default_db_path = request.default_db_path;
  db_root = unwrap_or request.db_root "";
  read_consistency_interval_ms = unwrap_or request.read_consistency_interval_ms 0;
  max_upsert_payload = request.max_upsert_payload;
  max_search_limit = request.max_search_limit;
  max_concurrent_requests = request.max_concurrent_requests;
}
