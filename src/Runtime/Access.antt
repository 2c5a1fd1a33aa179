-- ===== src/Runtime/Access.antt =====
-- controller/src/core/runtime.rs: who may use a space and a backend binding.
use vldb_controller.Base.{String, Option, none, some, Bool, true, false, if◌then◌else◌}
use vldb_controller.Base.Order.{eqb, str_ord}
use vldb_controller.BTreeMap
use vldb_controller.BTreeSet
use vldb_controller.Runtime.Fault.{
  BackendKind, sqlite, lancedb, Error, Result, ok, err, ◌>>=◌, ◌>>◌, client_not_registered,
  client_not_attached, space_not_attached, space_needs_client, binding_needs_client,
  binding_belongs_to, binding_needs_owner, binding_not_enabled,
}
use vldb_controller.Runtime.State.{Backend, BindingEntry, SpaceState, ControllerState}
use vldb_controller.Runtime.Keys.{normalize_client_id}

-- `.get(key).ok_or_else(…)`
abbrev pub ok_or {ℓ} : {A : Type ℓ} → Option A → Error → Result A
ok_or none e = err e
ok_or (some a) e = ok a

abbrev pub require : Bool → Error → Result (Unit {0})
require true e = ok tt
require false e = err e

-- The tests that both access checks end with.
abbrev pub ensure_attached_client :
    ControllerState → SpaceState → String → String → Result (Unit {0})
ensure_attached_client state space space_id client_id = do
  require (BTreeMap.contains_key client_id state.clients) (client_not_registered client_id)
  require (BTreeSet.contains client_id space.attached_clients)
      (client_not_attached client_id space_id)

unfoldable pub ensure_space_access_locked :
    ControllerState → String → Option String → Result (Unit {0})
ensure_space_access_locked state space_id client_id = do
  space ← ok_or (BTreeMap.get space_id state.spaces) (space_not_attached space_id)
  if BTreeSet.is_empty space.attached_clients then ok tt else do
    client_id ← ok_or (normalize_client_id client_id) (space_needs_client space_id)
    ensure_attached_client state space space_id client_id

unfoldable pub ensure_backend_binding_creation_access_locked :
    ControllerState → String → Option String → Result (Unit {0})
ensure_backend_binding_creation_access_locked state space_id client_id = do
  space ← ok_or (BTreeMap.get space_id state.spaces) (space_not_attached space_id)
  client_id ← ok_or (normalize_client_id client_id) (binding_needs_client space_id)
  ensure_attached_client state space space_id client_id

-- The owner of a binding, when there is a binding and it has one.
abbrev pub owner_of : Option BindingEntry → Option String
owner_of none = none
owner_of (some entry) = entry.owner_client_id

unfoldable pub binding_owner_client_id :
    BackendKind → ControllerState → String → String → Result (Option String)
binding_owner_client_id kind state space_id binding_id = do
  space ← ok_or (BTreeMap.get space_id state.spaces) (space_not_attached space_id)
  ok (owner_of (BTreeMap.get binding_id (space.bindings kind)))

unfoldable pub sqlite_binding_owner_client_id :
    ControllerState → String → String → Result (Option String)
unfolding binding_owner_client_id
sqlite_binding_owner_client_id = binding_owner_client_id sqlite

unfoldable pub lancedb_binding_owner_client_id :
    ControllerState → String → String → Result (Option String)
unfolding binding_owner_client_id
lancedb_binding_owner_client_id = binding_owner_client_id lancedb

unfoldable pub ensure_binding_owner_match :
    BackendKind → String → String → Option String → Option String → Result (Unit {0})
ensure_binding_owner_match kind space_id binding_id (some existing) (some requesting) =
    if eqb existing requesting
    then ok tt
    else err (binding_belongs_to kind space_id binding_id existing requesting)
ensure_binding_owner_match kind space_id binding_id (some existing) none =
    err (binding_needs_owner kind space_id binding_id existing)
ensure_binding_owner_match kind space_id binding_id none requesting = ok tt

unfoldable pub ensure_binding_access_locked :
    BackendKind → ControllerState → String → String → Option String → Result (Unit {0})
ensure_binding_access_locked kind state space_id binding_id client_id = do
  ensure_space_access_locked state space_id client_id
  owner ← binding_owner_client_id kind state space_id binding_id
  ensure_binding_owner_match kind space_id binding_id owner (normalize_client_id client_id)

unfoldable pub ensure_sqlite_binding_access_locked :
    ControllerState → String → String → Option String → Result (Unit {0})
unfolding ensure_binding_access_locked
ensure_sqlite_binding_access_locked = ensure_binding_access_locked sqlite

unfoldable pub ensure_lancedb_binding_access_locked :
    ControllerState → String → String → Option String → Result (Unit {0})
unfolding ensure_binding_access_locked
ensure_lancedb_binding_access_locked = ensure_binding_access_locked lancedb

-- The backend that a data-plane call runs on.
unfoldable pub bound_backend :
    BackendKind → ControllerState → String → String → Option String → Result Backend
bound_backend kind state space_id binding_id client_id = do
  ensure_binding_access_locked kind state space_id binding_id client_id
  space ← ok_or (BTreeMap.get space_id state.spaces) (space_not_attached space_id)
  entry ←
      ok_or (BTreeMap.get binding_id (space.bindings kind))
        (binding_not_enabled kind binding_id space_id)
  ok entry.backend

unfoldable pub sqlite_backend : ControllerState → String → String → Option String → Result Backend
unfolding bound_backend
sqlite_backend = bound_backend sqlite

unfoldable pub lancedb_backend : ControllerState → String → String → Option String → Result Backend
unfolding bound_backend
lancedb_backend = bound_backend lancedb
