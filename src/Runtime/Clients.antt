-- ===== src/Runtime/Clients.antt =====
-- controller/src/core/runtime.rs: how a client leaves the registry, by itself or when its lease ends.
use vldb_controller.Base.{
  ℕ, String, Option, none, some, Bool, true, false, not, ◌&&◌, List, [], ◌∷◌, leb, length,
}
use vldb_controller.Base.Order.{eqb, str_ord, nat_ord}
use vldb_controller.BTreeMap
use vldb_controller.BTreeSet
use vldb_controller.Runtime.Fault.{BackendKind, sqlite, lancedb}
use vldb_controller.Runtime.Key.{BindingKey, key_ord}
use vldb_controller.Runtime.State.{ClientState, SpaceState, ControllerState}
use vldb_controller.Runtime.Bindings.{remove_binding_locked}

-- Nobody is attached to the space and no backend is enabled in it.
unfoldable pub is_idle : SpaceState → Bool
is_idle space =
    BTreeSet.is_empty space.attached_clients
    && BTreeMap.is_empty (space.bindings sqlite)
    && BTreeMap.is_empty (space.bindings lancedb)

unfoldable pub remove_spaces : List String → ControllerState → ControllerState
remove_spaces [] state = state
remove_spaces (space_id ∷ rest) state =
    remove_spaces rest (record state { spaces = BTreeMap.remove space_id state.spaces })

unfoldable pub cleanup_empty_spaces_locked : ControllerState → ControllerState
cleanup_empty_spaces_locked state =
    remove_spaces (BTreeMap.filter_keys (λ space_id space. is_idle space) state.spaces) state

-- `for binding_key in owned_binding_keys { self.remove_binding_locked(state, &binding_key); }`
unfoldable pub remove_bindings : BackendKind → List BindingKey → ControllerState → ControllerState
remove_bindings kind [] state = state
remove_bindings kind (key ∷ rest) state =
    remove_bindings kind rest (remove_binding_locked kind state key).1

abbrev pub drop_attached_client : String → SpaceState → SpaceState
drop_attached_client client_id space = record space {
  attached_clients = BTreeSet.remove client_id space.attached_clients;
}

-- `for space_id in attached_space_ids { … space.attached_clients.remove(client_id); }`
unfoldable pub detach_all : String → List String → ControllerState → ControllerState
detach_all client_id [] state = state
detach_all client_id (space_id ∷ rest) state = detach_all client_id rest (record state {
  spaces = BTreeMap.modify space_id (drop_attached_client client_id) state.spaces;
})

abbrev pub is_owner : String → Option String → Bool
is_owner client_id none = false
is_owner client_id (some owner) = eqb client_id owner

unfoldable pub drop_streams : String → ControllerState → ControllerState
drop_streams client_id state = record state {
  sqlite_query_streams =
      BTreeMap.retain (λ id entry. not (is_owner client_id entry.owner_client_id))
        state.sqlite_query_streams;
}

-- Everything that the client owns goes before the client itself.
unfoldable pub release_owned : ClientState → ControllerState → ControllerState
release_owned client state =
    remove_bindings lancedb (BTreeSet.to_list (client.owned_binding_keys lancedb))
      (remove_bindings sqlite (BTreeSet.to_list (client.owned_binding_keys sqlite)) state)

unfoldable pub remove_client_locked : ControllerState → String → Bool × ControllerState
remove_client_locked state client_id = elim (BTreeMap.get client_id state.clients) [
  | none ↦ (false, state)
  | some client ↦
      let released = release_owned client state in
      elim (BTreeMap.get client_id released.clients) [
        | none ↦ (false, released)
        | some _removed_client ↦ (
          true,
          cleanup_empty_spaces_locked (
              drop_streams client_id (
                detach_all client_id (BTreeSet.to_list client.attached_space_ids)
                  (record released { clients = BTreeMap.remove client_id released.clients }))),
        )
      ]
]

unfoldable pub remove_clients : List String → ControllerState → ControllerState
remove_clients [] state = state
remove_clients (client_id ∷ rest) state =
    remove_clients rest (remove_client_locked state client_id).1

abbrev pub is_expired : ℕ → ClientState → Bool
is_expired now_unix_ms client = leb client.expires_at_unix_ms now_unix_ms

unfoldable pub expired_client_ids : ℕ → ControllerState → List String
expired_client_ids now_unix_ms state =
    BTreeMap.filter_keys (λ client_id client. is_expired now_unix_ms client) state.clients

unfoldable pub prune_expired_clients_locked : ControllerState → ℕ → ℕ × ControllerState
prune_expired_clients_locked state now_unix_ms =
    let expired = expired_client_ids now_unix_ms state in
    (length expired, remove_clients expired state)
