-- ===== src/Runtime/Listing.antt =====
-- controller/src/core/runtime.rs: the spaces that a client sees.
use vldb_controller.Base.{ℕ, String, Option, none, some, if◌then◌else◌, List, [], ◌∷◌, map}
use vldb_controller.Base.Order.{str_ord}
use vldb_controller.BTreeMap
use vldb_controller.BTreeSet
use vldb_controller.Types.{SpaceSnapshot}
use vldb_controller.Runtime.Fault.{Result, ok, ◌>>◌, client_not_registered}
use vldb_controller.Runtime.State.{SpaceState, ControllerState}
use vldb_controller.Runtime.Keys.{normalize_client_id}
use vldb_controller.Runtime.Access.{require}
use vldb_controller.Runtime.Clients.{prune_expired_clients_locked}
use vldb_controller.Runtime.Snapshots.{snapshot_space_state}

-- `.filter(|space| space.attached_clients.contains(client_id))`
unfoldable pub visible_spaces : String → List SpaceState → List SpaceState
visible_spaces client_id [] = []
visible_spaces client_id (space ∷ rest) =
    let others = visible_spaces client_id rest in
    if BTreeSet.contains client_id space.attached_clients then space ∷ others else others

abbrev list_for : Option String → ControllerState → Result (List SpaceSnapshot)
list_for none state = ok (map snapshot_space_state (BTreeMap.values state.spaces))
list_for (some client_id) state = do
  require (BTreeMap.contains_key client_id state.clients) (client_not_registered client_id)
  ok (map snapshot_space_state (visible_spaces client_id (BTreeMap.values state.spaces)))

unfoldable pub list_spaces :
    ℕ → Option String → ControllerState → Result (List SpaceSnapshot) × ControllerState
list_spaces now_unix_ms client_id state =
    let pruned = (prune_expired_clients_locked state now_unix_ms).1 in
    (list_for (normalize_client_id client_id) pruned, pruned)
