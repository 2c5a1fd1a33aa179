-- ===== src/Registry/Invariant.antt =====
-- When the indexes of the registry agree.
use vldb_controller.Base.{String, Option, none, some, Bool, true, not, ◌≡◌, is_some}
use vldb_controller.Base.Order.{str_ord}
use vldb_controller.BTreeMap
use vldb_controller.BTreeSet
use vldb_controller.BTreeSet.{BTreeSet}
use vldb_controller.Runtime.Fault.{BackendKind}
use vldb_controller.Runtime.Key.{BindingKey, key_ord}
use vldb_controller.Runtime.State.{ControllerState}
use vldb_controller.Runtime.Access.{owner_of}
use vldb_controller.Runtime.Clients.{is_owner}
use vldb_controller.Registry.Views.{
  binding_at, attached_by_client, attached_by_space, owned_by, tracked, uses,
}

-- The two indexes that are derived from the bindings: a client's list names the keys of the bindings
-- that it owns, and a resource's list names the keys of the bindings that use it.
pub record IsIndexed (state : ControllerState) : Type 0 where
  pub ownership :
      (kind : BackendKind) (client_id : String) (key : BindingKey)
      → owned_by kind client_id key state
        ≡ is_owner client_id (owner_of (binding_at kind key state))
  pub usage :
      (kind : BackendKind) (resource_key : String) (key : BindingKey)
      → tracked kind resource_key key state ≡ uses resource_key (binding_at kind key state)

abbrev pub is_inhabited : Option (BTreeSet BindingKey) → Bool
is_inhabited none = true
is_inhabited (some keys) = not (BTreeSet.is_empty keys)

-- The resources: none is listed with no user, a backend has a configuration and the other way round,
-- and a registered backend is in use.
pub record IsCatalog (state : ControllerState) : Type 0 where
  pub inhabited :
      (kind : BackendKind) (r : String)
      → is_inhabited (BTreeMap.get r (state.resources kind)) ≡ true
  pub configured :
      (kind : BackendKind) (r : String)
      → is_some (BTreeMap.get r (state.resource_backends kind))
        ≡ is_some (BTreeMap.get r (state.resource_configs kind))
  pub in_use :
      (kind : BackendKind) (r : String)
      → is_some (BTreeMap.get r (state.resource_backends kind)) ≡ true
      → is_some (BTreeMap.get r (state.resources kind)) ≡ true

-- The client's list of spaces and the space's list of clients say the same.
abbrev pub IsSymmetric : ControllerState → Type 0
IsSymmetric state =
    (client_id space_id : String)
    → attached_by_client client_id space_id state ≡ attached_by_space client_id space_id state

-- An owner is attached to the space of its binding.
abbrev pub OwnersAttached : ControllerState → Type 0
OwnersAttached state =
    (kind : BackendKind) (client_id : String) (key : BindingKey)
    → owned_by kind client_id key state ≡ true
    → attached_by_client client_id key.space_id state ≡ true

-- Every binding has an owner.
abbrev pub HasOwners : ControllerState → Type 0
HasOwners state =
    (kind : BackendKind) (key : BindingKey)
    → is_some (owner_of (binding_at kind key state)) ≡ is_some (binding_at kind key state)

pub record IsConsistent (state : ControllerState) : Type 0 where
  pub indexed : IsIndexed state
  pub catalog : IsCatalog state
  pub symmetric : IsSymmetric state
  pub owners_attached : OwnersAttached state
  pub owners : HasOwners state
