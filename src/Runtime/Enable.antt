-- ===== src/Runtime/Enable.antt =====
-- controller/src/core/runtime.rs: enabling and disabling a backend in a space.
use vldb_controller.Base.{ℕ, String, Option, none, some, Bool, true, if◌then◌else◌}
use vldb_controller.Base.Order.{eqb, str_ord}
use vldb_controller.BTreeMap
use vldb_controller.Types.{
  SpaceBackendStatus, ControllerSqliteEnableRequest, ControllerLanceDbEnableRequest,
}
use vldb_controller.Runtime.Fault.{
  BackendKind, sqlite, lancedb, Result, ok, err, panic, ◌>>=◌, ◌>>◌, space_not_attached,
  different_configuration,
}
use vldb_controller.Runtime.Key.{BindingKey, binding_key}
use vldb_controller.Runtime.State.{Backend, BindingEntry, SpaceState, ControllerState, put}
use vldb_controller.Runtime.Keys.{
  normalize_client_id, sqlite_resource_key_from_request, sqlite_resource_config_key_from_request,
  lancedb_resource_key_from_request, lancedb_resource_config_key_from_request,
}
use vldb_controller.Runtime.Access.{
  ensure_backend_binding_creation_access_locked, binding_owner_client_id,
  ensure_binding_owner_match, ensure_binding_access_locked,
}
use vldb_controller.Runtime.Bindings.{
  map_bindings, track_binding_locked, untrack_binding_locked, remove_binding_locked,
}
use vldb_controller.Runtime.Backends.{
  SqliteOpenOptions, DatabaseRuntimeConfig, LanceDbEngineOptions, sqlite_backend_new,
  lancedb_backend_new,
}

-- What the methods of both kinds read of a request.
pub record EnableRequest : Type 0 where
  pub space_id : String
  pub binding_id : String
  pub resource_key : String
  pub resource_config_key : String
  pub target : String

-- A backend that is registered already is used again if its configuration is the same.
abbrev pub reuse_backend : BackendKind → String → String → Backend → Option String → Result Backend
reuse_backend kind resource_key resource_config_key backend none =
    panic "resource config should exist with backend"
reuse_backend kind resource_key resource_config_key backend (some existing_config_key) =
    if eqb existing_config_key resource_config_key
    then ok backend
    else err (different_configuration kind resource_key)

abbrev pub register_backend :
    BackendKind → String → String → Backend → ControllerState → ControllerState
register_backend kind resource_key resource_config_key backend state = record state {
  resource_backends =
      put kind (BTreeMap.insert resource_key backend (state.resource_backends kind))
        state.resource_backends;
  resource_configs =
      put kind (BTreeMap.insert resource_key resource_config_key (state.resource_configs kind))
        state.resource_configs;
}

abbrev pub register_new :
    BackendKind
    → String
    → String
    → Result Backend
    → ControllerState
    → Result Backend × ControllerState
register_new kind resource_key resource_config_key (ok backend) state =
    (ok backend, register_backend kind resource_key resource_config_key backend state)
register_new kind resource_key resource_config_key (err e) state = (err e, state)
register_new kind resource_key resource_config_key (panic message) state = (panic message, state)

-- `make` is what the constructor of the backend returns, if it is called.
unfoldable pub backend_for_enable_locked :
    BackendKind
    → ControllerState
    → String
    → String
    → Result Backend
    → Result Backend × ControllerState
backend_for_enable_locked kind state resource_key resource_config_key make =
    elim (BTreeMap.get resource_key (state.resource_backends kind)) [
      | some existing ↦ (
        reuse_backend kind resource_key resource_config_key existing
            (BTreeMap.get resource_key (state.resource_configs kind)),
        state,
      )
      | none ↦ register_new kind resource_key resource_config_key make state
    ]

unfoldable pub sqlite_backend_for_enable_locked :
    ControllerState → String → String → Result Backend → Result Backend × ControllerState
unfolding backend_for_enable_locked
sqlite_backend_for_enable_locked = backend_for_enable_locked sqlite

unfoldable pub lancedb_backend_for_enable_locked :
    ControllerState → String → String → Result Backend → Result Backend × ControllerState
unfolding backend_for_enable_locked
lancedb_backend_for_enable_locked = backend_for_enable_locked lancedb

abbrev pub untrack_previous :
    BackendKind → BindingKey → Option BindingEntry → ControllerState → ControllerState
untrack_previous kind key none state = state
untrack_previous kind key (some entry) state = untrack_binding_locked kind state key entry

-- The binding takes the place of the one that had its key, and the indexes follow.
unfoldable pub replace_binding :
    BackendKind
    → EnableRequest
    → Option String
    → Backend
    → SpaceState
    → ControllerState
    → ControllerState
replace_binding kind request owner_client_id backend space state =
    track_binding_locked kind
      (untrack_previous kind key (BTreeMap.get request.binding_id (space.bindings kind))
        (record state {
          spaces =
              BTreeMap.modify request.space_id
                (map_bindings (BTreeMap.insert request.binding_id entry) kind) state.spaces;
        }))
      key owner_client_id request.resource_key
  where
    key : BindingKey
    key = binding_key request.space_id request.binding_id

    entry : BindingEntry
    entry = record {
      owner_client_id = owner_client_id;
      resource_key = request.resource_key;
      backend = backend;
    }

abbrev pub bind_backend :
    BackendKind
    → EnableRequest
    → Option String
    → Result Backend × ControllerState
    → Result SpaceBackendStatus × ControllerState
bind_backend kind request owner_client_id (ok backend, state) =
    elim (BTreeMap.get request.space_id state.spaces) [
      | none ↦ (err (space_not_attached request.space_id), state)
      | some space ↦ (
        ok (record { enabled = true; mode = "dynamic_library"; target = request.target }),
        replace_binding kind request owner_client_id backend space state,
      )
    ]
bind_backend kind request owner_client_id (err e, state) = (err e, state)
bind_backend kind request owner_client_id (panic message, state) = (panic message, state)

-- The guards of an enable request. A binding with no owner has nothing to match.
unfoldable pub ensure_enable_allowed :
    BackendKind → EnableRequest → Option String → ControllerState → Result (Unit {0})
ensure_enable_allowed kind request client_id state = do
  ensure_backend_binding_creation_access_locked state request.space_id client_id
  existing_owner ← binding_owner_client_id kind state request.space_id request.binding_id
  ensure_binding_owner_match kind request.space_id request.binding_id existing_owner
      (normalize_client_id client_id)

unfoldable pub enable_backend :
    BackendKind
    → EnableRequest
    → Result Backend
    → Option String
    → ControllerState
    → Result SpaceBackendStatus × ControllerState
enable_backend kind request make client_id state =
    elim (ensure_enable_allowed kind request client_id state) [
      | ok _ ↦ bind_backend kind request (normalize_client_id client_id) (
          backend_for_enable_locked kind state request.resource_key request.resource_config_key
            make)
      | err e ↦ (err e, state)
      | panic message ↦ (panic message, state)
    ]

unfoldable pub enable_sqlite :
    (SqliteOpenOptions → String → Result ℕ)
    → ControllerSqliteEnableRequest
    → Option String
    → ControllerState
    → Result SpaceBackendStatus × ControllerState
enable_sqlite open_database request client_id =
    enable_backend sqlite
      (record {
        space_id = request.space_id;
        binding_id = request.binding_id;
        resource_key = sqlite_resource_key_from_request request;
        resource_config_key = sqlite_resource_config_key_from_request request;
        target = request.db_path;
      })
      (sqlite_backend_new open_database request) client_id

unfoldable pub enable_lancedb :
    (DatabaseRuntimeConfig → LanceDbEngineOptions → Result ℕ)
    → ControllerLanceDbEnableRequest
    → Option String
    → ControllerState
    → Result SpaceBackendStatus × ControllerState
enable_lancedb open_runtime request client_id =
    enable_backend lancedb
      (record {
        space_id = request.space_id;
        binding_id = request.binding_id;
        resource_key = lancedb_resource_key_from_request request;
        resource_config_key = lancedb_resource_config_key_from_request request;
        target = request.default_db_path;
      })
      (lancedb_backend_new open_runtime request) client_id

unfoldable pub disable_backend :
    BackendKind → String → String → Option String → ControllerState → Result Bool × ControllerState
disable_backend kind space_id binding_id client_id state =
    elim (ensure_binding_access_locked kind state space_id binding_id client_id) [
      | ok _ ↦
          let (removed, after) =
            remove_binding_locked kind state (binding_key space_id binding_id) in
          (ok removed, after)
      | err e ↦ (err e, state)
      | panic message ↦ (panic message, state)
    ]

unfoldable pub disable_sqlite :
    String → String → Option String → ControllerState → Result Bool × ControllerState
unfolding disable_backend
disable_sqlite = disable_backend sqlite

unfoldable pub disable_lancedb :
    String → String → Option String → ControllerState → Result Bool × ControllerState
unfolding disable_backend
disable_lancedb = disable_backend lancedb
