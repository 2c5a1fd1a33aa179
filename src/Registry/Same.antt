-- ===== src/Registry/Same.antt =====
-- The invariants read some fields of the state, and hold wherever those are the same.
use vldb_controller.Base.{◌≡◌, ◌∙◌, sym, ap, is_some}
use vldb_controller.Runtime.State.{ControllerState}
use vldb_controller.Runtime.Access.{owner_of}
use vldb_controller.Runtime.Clients.{is_owner}
use vldb_controller.Registry.Views.{
  uses, owned_by_same, attached_by_client_same, attached_by_space_same, binding_at_same,
  tracked_same,
}
use vldb_controller.Registry.Invariant.{
  IsIndexed, IsSymmetric, OwnersAttached, HasOwners, IsConsistent,
}
use vldb_controller.Registry.Catalog.{IsCatalog-same}

module _ (s t : ControllerState) (c : t.clients ≡ s.clients) (p : t.spaces ≡ s.spaces) where
  pub IsIndexed-same : t.resources ≡ s.resources → IsIndexed s → IsIndexed t
  IsIndexed-same r h = record {
    ownership = λ k d j.
        owned_by_same t s k d j c
        ∙ h.ownership k d j
        ∙ ap (λ b. is_owner d (owner_of b)) (sym (binding_at_same t s k j p));
    usage = λ k q j.
        tracked_same t s k q j r ∙ h.usage k q j ∙ ap (uses q) (sym (binding_at_same t s k j p));
  }

  pub IsSymmetric-same : IsSymmetric s → IsSymmetric t
  IsSymmetric-same h d q =
      attached_by_client_same t s d q c ∙ h d q ∙ sym (attached_by_space_same t s d q p)

  pub OwnersAttached-same : OwnersAttached s → OwnersAttached t
  OwnersAttached-same h k d j o =
      attached_by_client_same t s d j.space_id c ∙ h k d j (sym (owned_by_same t s k d j c) ∙ o)

  pub HasOwners-same : HasOwners s → HasOwners t
  HasOwners-same h k j =
      ap (λ b. is_some (owner_of b)) (binding_at_same t s k j p)
      ∙ h k j
      ∙ ap is_some (sym (binding_at_same t s k j p))

  pub IsConsistent-same :
      t.resources ≡ s.resources
      → t.resource_backends ≡ s.resource_backends
      → t.resource_configs ≡ s.resource_configs
      → IsConsistent s
      → IsConsistent t
  IsConsistent-same r b g h = record {
    indexed = IsIndexed-same r h.indexed;
    catalog = IsCatalog-same s t (sym r) (sym b) (sym g) h.catalog;
    symmetric = IsSymmetric-same h.symmetric;
    owners_attached = OwnersAttached-same h.owners_attached;
    owners = HasOwners-same h.owners;
  }
