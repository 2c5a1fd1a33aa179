-- ===== src/Registry/Remove.antt =====
-- The removal of a binding keeps the registry consistent.
use vldb_controller.Base.{arith, ◌∙◌, sym}
use vldb_controller.Base.Order.{str_ord}
use vldb_controller.Runtime.Fault.{BackendKind}
use vldb_controller.Runtime.Key.{BindingKey, key_ord}
use vldb_controller.Runtime.State.{ControllerState}
use vldb_controller.Runtime.Bindings.{remove_binding_locked}
use vldb_controller.Registry.Invariant.{
  IsIndexed, IsSymmetric, OwnersAttached, HasOwners, IsConsistent,
}
use vldb_controller.Registry.Unbind.{Unbound, Unbound-remove}
use vldb_controller.Registry.Catalog.{IsCatalog-remove}

module _ {kind : BackendKind} {key : BindingKey} {state after : ControllerState}
    (u : Unbound kind key state after) where
  Unbound-IsIndexed : IsIndexed state → IsIndexed after
  Unbound-IsIndexed h = record {
    ownership = λ k c j. ground (arith, u.owned k c j, u.bound k j, h.ownership k c j);
    usage = λ k r j. ground (arith, u.used k r j, u.bound k j, h.usage k r j);
  }

  Unbound-IsSymmetric : IsSymmetric state → IsSymmetric after
  Unbound-IsSymmetric h c s = u.by_client c s ∙ h c s ∙ sym (u.by_space c s)

  Unbound-OwnersAttached : OwnersAttached state → OwnersAttached after
  Unbound-OwnersAttached h k c j o =
      u.by_client c j.space_id ∙ h k c j (ground (arith, u.owned k c j))

  Unbound-HasOwners : HasOwners state → HasOwners after
  Unbound-HasOwners h k j = ground (arith, u.bound k j, h k j)

-- A binding is taken away and the registry stays consistent.
pub remove-IsConsistent :
    (kind : BackendKind) (key : BindingKey) (state : ControllerState)
    → IsConsistent state
    → IsConsistent (remove_binding_locked kind state key).1
remove-IsConsistent kind key state h =
    let u = Unbound-remove kind key state h.indexed in
    record {
      indexed = Unbound-IsIndexed u h.indexed;
      catalog = IsCatalog-remove kind key state h.catalog;
      symmetric = Unbound-IsSymmetric u h.symmetric;
      owners_attached = Unbound-OwnersAttached u h.owners_attached;
      owners = Unbound-HasOwners u h.owners;
    }
