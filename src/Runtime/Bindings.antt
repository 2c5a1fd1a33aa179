-- ===== src/Runtime/Bindings.antt =====
-- controller/src/core/runtime.rs: a backend binding and the two indexes derived from it, the keys that
-- its owner holds and the keys that use its resource.
use vldb_controller.Base.{String, Option, none, some, Bool, true, false, if◌then◌else◌}
use vldb_controller.Base.Order.{str_ord}
use vldb_controller.BTreeMap
use vldb_controller.BTreeSet
use vldb_controller.Runtime.Fault.{BackendKind, sqlite, lancedb}
use vldb_controller.Runtime.Key.{BindingKey, key_ord}
use vldb_controller.Runtime.State.{BindingEntry, ClientState, SpaceState, ControllerState, put}

-- A change of the keys that one client owns.
abbrev pub map_owned :
    (BTreeSet.BTreeSet BindingKey → BTreeSet.BTreeSet BindingKey)
    → BackendKind
    → ClientState
    → ClientState
map_owned f kind client = record client {
  owned_binding_keys = put kind (f (client.owned_binding_keys kind)) client.owned_binding_keys;
}

-- `if let Some(owner) = … && let Some(client) = state.clients.get_mut(owner) { … }`
abbrev pub modify_owner :
    Option String → (ClientState → ClientState) → ControllerState → ControllerState
modify_owner none f state = state
modify_owner (some owner) f state = record state { clients = BTreeMap.modify owner f state.clients }

-- The keys of a resource; a resource that is not in the index has none.
abbrev pub keys_or_default : Option (BTreeSet.BTreeSet BindingKey) → BTreeSet.BTreeSet BindingKey
keys_or_default none = BTreeSet.new
keys_or_default (some keys) = keys

unfoldable pub track_binding_locked :
    BackendKind → ControllerState → BindingKey → Option String → String → ControllerState
track_binding_locked kind state binding_key owner_client_id resource_key = record owned {
  resources =
      put kind
        (BTreeMap.insert resource_key
          (BTreeSet.insert binding_key
            (keys_or_default (BTreeMap.get resource_key (owned.resources kind))))
          (owned.resources kind))
        owned.resources;
}
  where
    owned : ControllerState
    owned = modify_owner owner_client_id (map_owned (BTreeSet.insert binding_key) kind) state

-- The resource is no longer in use: its index entry, its backend and its configuration go.
abbrev pub release_resource : BackendKind → String → ControllerState → ControllerState
release_resource kind resource_key state = record state {
  resources = put kind (BTreeMap.remove resource_key (state.resources kind)) state.resources;
  resource_backends =
      put kind (BTreeMap.remove resource_key (state.resource_backends kind))
        state.resource_backends;
  resource_configs =
      put kind (BTreeMap.remove resource_key (state.resource_configs kind)) state.resource_configs;
}

abbrev pub set_resource :
    BackendKind → String → BTreeSet.BTreeSet BindingKey → ControllerState → ControllerState
set_resource kind resource_key keys state = record state {
  resources = put kind (BTreeMap.insert resource_key keys (state.resources kind)) state.resources;
}

-- One key is taken off the keys of a resource.
abbrev pub untrack_resource :
    BackendKind
    → String
    → BindingKey
    → Option (BTreeSet.BTreeSet BindingKey)
    → ControllerState
    → ControllerState
untrack_resource kind resource_key binding_key none state = state
untrack_resource kind resource_key binding_key (some keys) state =
    let left = BTreeSet.remove binding_key keys in
    if BTreeSet.is_empty left
    then release_resource kind resource_key state
    else set_resource kind resource_key left state

unfoldable pub untrack_binding_locked :
    BackendKind → ControllerState → BindingKey → BindingEntry → ControllerState
untrack_binding_locked kind state binding_key entry =
    untrack_resource kind entry.resource_key binding_key
      (BTreeMap.get entry.resource_key (disowned.resources kind)) disowned
  where
    disowned : ControllerState
    disowned =
        modify_owner entry.owner_client_id (map_owned (BTreeSet.remove binding_key) kind) state

-- The bindings of one kind in a space are changed.
abbrev pub map_bindings :
    (BTreeMap.BTreeMap String BindingEntry → BTreeMap.BTreeMap String BindingEntry)
    → BackendKind
    → SpaceState
    → SpaceState
map_bindings f kind space = record space {
  bindings = put kind (f (space.bindings kind)) space.bindings;
}

unfoldable pub remove_binding_locked :
    BackendKind → ControllerState → BindingKey → Bool × ControllerState
remove_binding_locked kind state key = elim (BTreeMap.get key.space_id state.spaces) [
  | none ↦ (false, state)
  | some space ↦ elim (BTreeMap.get key.binding_id (space.bindings kind)) [
    | none ↦ (false, state)
    | some removed_entry ↦ (
      true,
      untrack_binding_locked kind
          (record state {
            spaces =
                BTreeMap.modify key.space_id (map_bindings (BTreeMap.remove key.binding_id) kind)
                  state.spaces;
          })
          key removed_entry,
    )
  ]
]

unfoldable pub track_sqlite_binding_locked :
    ControllerState → BindingKey → Option String → String → ControllerState
unfolding track_binding_locked
track_sqlite_binding_locked = track_binding_locked sqlite

unfoldable pub track_lancedb_binding_locked :
    ControllerState → BindingKey → Option String → String → ControllerState
unfolding track_binding_locked
track_lancedb_binding_locked = track_binding_locked lancedb

unfoldable pub untrack_sqlite_binding_locked :
    ControllerState → BindingKey → BindingEntry → ControllerState
unfolding untrack_binding_locked
untrack_sqlite_binding_locked = untrack_binding_locked sqlite

unfoldable pub untrack_lancedb_binding_locked :
    ControllerState → BindingKey → BindingEntry → ControllerState
unfolding untrack_binding_locked
untrack_lancedb_binding_locked = untrack_binding_locked lancedb

unfoldable pub remove_sqlite_binding_locked : ControllerState → BindingKey → Bool × ControllerState
unfolding remove_binding_locked
remove_sqlite_binding_locked = remove_binding_locked sqlite

unfoldable pub remove_lancedb_binding_locked : ControllerState → BindingKey → Bool × ControllerState
unfolding remove_binding_locked
remove_lancedb_binding_locked = remove_binding_locked lancedb
