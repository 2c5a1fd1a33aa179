-- ===== src/Runtime/State.antt =====
-- controller/src/core/runtime.rs: the data of the registry. A field that the source has once for
-- SQLite and once for LanceDB is one function of `BackendKind` here.
use vldb_controller.Base.{ℕ, String, Option, Bool, true, false, if◌then◌else◌}
use vldb_controller.Base.Order.{str_ord, nat_ord}
use vldb_controller.BTreeMap
use vldb_controller.BTreeMap.{BTreeMap}
use vldb_controller.BTreeSet.{BTreeSet}
use vldb_controller.Types.{ClientRegistration, SpaceRegistration, ControllerServerConfig}
use vldb_controller.Runtime.Key.{BindingKey, key_ord}
use vldb_controller.Runtime.Fault.{BackendKind, sqlite, lancedb}

-- `runtime` stands for the shared pointer to the upstream runtime, `path` for the path that the
-- backend reports.
pub record Backend : Type 0 where
  pub runtime : ℕ
  pub path : String

pub record BindingEntry : Type 0 where
  pub owner_client_id : Option String
  pub resource_key : String
  pub backend : Backend

-- `handle` stands for the shared pointer to the stream's spool state.
pub record SqliteQueryStreamEntry : Type 0 where
  pub handle : ℕ
  pub owner_client_id : Option String
  pub owner_space_id : String
  pub last_accessed_at_unix_ms : ℕ

pub record ClientState : Type 0 where
  pub client_session_id : String
  pub registration : ClientRegistration
  pub last_seen_unix_ms : ℕ
  pub expires_at_unix_ms : ℕ
  pub attached_space_ids : BTreeSet String
  pub owned_binding_keys : BackendKind → BTreeSet BindingKey

pub record SpaceState : Type 0 where
  pub registration : SpaceRegistration
  pub attached_clients : BTreeSet String
  pub bindings : BackendKind → BTreeMap String BindingEntry

-- Instants of the monotonic clock are in nanoseconds.
pub record ControllerState : Type 0 where
  pub last_request_at : ℕ
  pub last_request_unix_ms : ℕ
  pub clients : BTreeMap String ClientState
  pub spaces : BTreeMap String SpaceState
  pub resource_backends : BackendKind → BTreeMap String Backend
  pub resource_configs : BackendKind → BTreeMap String String
  pub resources : BackendKind → BTreeMap String (BTreeSet BindingKey)
  pub next_query_stream_id : ℕ
  pub sqlite_query_streams : BTreeMap ℕ SqliteQueryStreamEntry
  pub inflight_requests : ℕ

-- The part of the runtime that never changes.
pub record VldbControllerRuntime : Type 0 where
  pub server_config : ControllerServerConfig
  pub started_at : ℕ
  pub started_at_unix_ms : ℕ

unfoldable pub new : ControllerServerConfig → ℕ → ℕ → VldbControllerRuntime × ControllerState
unfolding BTreeMap.empty
new server_config now now_unix_ms = (
  record { server_config = server_config; started_at = now; started_at_unix_ms = now_unix_ms },
  record {
    last_request_at = now;
    last_request_unix_ms = now_unix_ms;
    clients = BTreeMap.empty;
    spaces = BTreeMap.empty;
    resource_backends = λ _. BTreeMap.empty;
    resource_configs = λ _. BTreeMap.empty;
    resources = λ _. BTreeMap.empty;
    next_query_stream_id = 1;
    sqlite_query_streams = BTreeMap.empty;
    inflight_requests = 0;
  },
)

abbrev pub same_kind : BackendKind → BackendKind → Bool
same_kind sqlite sqlite = true
same_kind sqlite lancedb = false
same_kind lancedb sqlite = false
same_kind lancedb lancedb = true

-- To assign the field of one kind.
unfoldable pub put {ℓ} : {A : Type ℓ} → BackendKind → A → (BackendKind → A) → BackendKind → A
put k a f j = if same_kind k j then a else f j
