-- ===== src/Registry/Enabling.antt =====
-- controller/src/core/runtime.rs: `enable_sqlite` and `enable_lancedb` keep the registry consistent, and
-- what they leave in it.
use vldb_controller.Base.{String, Option, some, true, false, ◌&&◌, ◌≡◌, refl, arith, ◌∙◌}
use vldb_controller.Base.Order.{eqb, str_ord}
use vldb_controller.BTreeMap
use vldb_controller.Runtime.Fault.{BackendKind}
use vldb_controller.Runtime.Key.{BindingKey, key_ord, binding_key}
use vldb_controller.Runtime.State.{
  Backend, BindingEntry, SpaceState, ControllerState, put, same_kind,
}
use vldb_controller.Runtime.Enable.{EnableRequest, register_backend, replace_binding}
use vldb_controller.Registry.Views.{attached_by_client, attached_by_space, binding_at}
use vldb_controller.Registry.Invariant.{IsConsistent}
use vldb_controller.Registry.Same.{
  IsIndexed-same, IsSymmetric-same, OwnersAttached-same, HasOwners-same,
}
use vldb_controller.Registry.Catalog.{Configured, InUse}
use vldb_controller.Registry.Allowed.{IsAllowed}
use vldb_controller.Registry.Replace.{Bound, replace-IsConsistent}

-- The states in which a backend may be bound: the one before, or the one with the new backend.
module _ (kind : BackendKind) (request : EnableRequest) (client_id : Option String)
    (state : ControllerState) (h : IsConsistent state) (owner : String) (space : SpaceState)
    (allowed : IsAllowed kind request client_id state owner space) (backend : Backend) where
  abbrev pub registered_state : String → ControllerState
  registered_state config_key = register_backend kind request.resource_key config_key backend state

  abbrev pub key : BindingKey
  key = binding_key request.space_id request.binding_id

  abbrev pub entry : BindingEntry
  entry = record {
    owner_client_id = some owner;
    resource_key = request.resource_key;
    backend = backend;
  }

  here : attached_by_client owner request.space_id state ≡ true
  unfolding attached_by_space
  here = h.symmetric owner request.space_id ∙ rw allowed.there allowed.attached

  pub rebound :
      IsConsistent (replace_binding kind request (some owner) backend space state)
      × Bound kind key entry state (replace_binding kind request (some owner) backend space state)
  rebound =
      replace-IsConsistent kind request owner backend space state allowed.there h.indexed
        allowed.session h.symmetric h.owners_attached h.owners h.catalog.inhabited
        h.catalog.configured (λ k r e. h.catalog.in_use k r) here

  module _ (config_key : String) where
    Configured-new : (k : BackendKind) (r : String) → Configured (registered_state config_key) k r
    unfolding put
    Configured-new k r = ground (
      arith,
      h.catalog.configured k r,
      BTreeMap.get-insert r request.resource_key backend (state.resource_backends kind),
      BTreeMap.get-insert r request.resource_key config_key (state.resource_configs kind),
    )

    InUse-new :
        (k : BackendKind) (r : String)
        → (same_kind kind k && eqb r request.resource_key) ≡ false
        → InUse (registered_state config_key) k r
    unfolding put
    InUse-new k r e = λ u. ground (
      arith,
      h.catalog.in_use k r,
      BTreeMap.get-insert r request.resource_key backend (state.resource_backends kind),
    )

    pub new_binding :
        IsConsistent
          (replace_binding kind request (some owner) backend space (registered_state config_key))
        × Bound kind key entry
            (registered_state config_key)
            (replace_binding kind request (some owner) backend space (registered_state config_key))
    unfolding attached_by_client
    new_binding =
        replace-IsConsistent kind request owner backend space (registered_state config_key)
          allowed.there
          (IsIndexed-same state (registered_state config_key) refl refl refl h.indexed)
          allowed.session
          (IsSymmetric-same state (registered_state config_key) refl refl h.symmetric)
          (OwnersAttached-same state (registered_state config_key) refl refl h.owners_attached)
          (HasOwners-same state (registered_state config_key) refl refl h.owners)
          h.catalog.inhabited Configured-new InUse-new here

  pub Bound-new :
      (config_key : String) (after : ControllerState)
      → Bound kind key entry (registered_state config_key) after
      → Bound kind key entry state after
  unfolding binding_at attached_by_client attached_by_space
  Bound-new config_key after b = record {
    bound = b.bound;
    by_client = b.by_client;
    by_space = b.by_space;
    kept = b.kept;
    streams = b.streams;
    counters = b.counters;
  }
