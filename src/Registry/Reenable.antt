-- ===== src/Registry/Reenable.antt =====
-- controller/src/core/runtime.rs: what becomes of the shared backend when a binding is enabled again.
use vldb_controller.Base.{String, Option, none, some, true, ◌≡◌, refl, ap, ◌∙◌}
use vldb_controller.Base.Order.{eqb_refl, str_ord}
use vldb_controller.BTreeMap
use vldb_controller.BTreeSet
use vldb_controller.Runtime.Fault.{BackendKind, sqlite, lancedb, Result, ok, is_ok}
use vldb_controller.Runtime.Key.{BindingKey, binding_key, key_ord}
use vldb_controller.Runtime.State.{
  Backend, BindingEntry, ClientState, SpaceState, ControllerState, put,
}
use vldb_controller.Runtime.Keys.{normalize_client_id}
use vldb_controller.Runtime.Bindings.{
  track_binding_locked, untrack_binding_locked, modify_owner, map_owned, release_resource,
}
use vldb_controller.Runtime.Enable.{
  EnableRequest, enable_backend, ensure_enable_allowed, backend_for_enable_locked, bind_backend,
  replace_binding,
}

put_same {ℓ} : {A : Type ℓ} (k : BackendKind) (a : A) (f : BackendKind → A) → put k a f k ≡ a
unfolding put
put_same sqlite a f = refl
put_same lancedb a f = refl

resources-modify :
    (o : Option String) (f : ClientState → ClientState) (state : ControllerState)
    → (modify_owner o f state).resources ≡ state.resources
resources-modify none f state = refl
resources-modify (some owner) f state = refl

backends-track :
    (kind : BackendKind) (state : ControllerState) (key : BindingKey) (o : Option String)
    (r : String)
    → (track_binding_locked kind state key o r).resource_backends ≡ state.resource_backends
unfolding track_binding_locked
backends-track kind state key none r = refl
backends-track kind state key (some owner) r = refl

released :
    (kind : BackendKind) (r : String) (state : ControllerState)
    → BTreeMap.get r ((release_resource kind r state).resource_backends kind) ≡ none
released kind r state =
    ap (BTreeMap.get r)
      (put_same kind (BTreeMap.remove r (state.resource_backends kind)) state.resource_backends)
    ∙ BTreeMap.get-remove r r (state.resource_backends kind)
    ∙ rw (eqb_refl r) refl

untrack-alone :
    (kind : BackendKind) (state : ControllerState) (key : BindingKey) (entry : BindingEntry)
    (keys : BTreeSet.BTreeSet BindingKey)
    → BTreeMap.get entry.resource_key (state.resources kind) ≡ some keys
    → BTreeSet.is_empty (BTreeSet.remove key keys) ≡ true
    → BTreeMap.get entry.resource_key
        ((untrack_binding_locked kind state key entry).resource_backends kind)
      ≡ none
unfolding untrack_binding_locked
untrack-alone kind state key entry keys listed alone =
    rw
      (
        resources-modify entry.owner_client_id (map_owned (BTreeSet.remove key) kind) state,
        listed,
        alone,
      )
      (released kind entry.resource_key
        (modify_owner entry.owner_client_id (map_owned (BTreeSet.remove key) kind) state))

module _ (kind : BackendKind) (request : EnableRequest) (client_id : Option String)
    (state : ControllerState) (make : Result Backend) (space : SpaceState) (entry : BindingEntry)
    (backend : Backend) (keys : BTreeSet.BTreeSet BindingKey) where
  -- The one user of a resource asks for its binding again, with the same configuration.
  pub record IsAgain : Type 0 where
    pub allowed : ensure_enable_allowed kind request client_id state ≡ ok tt
    pub there : BTreeMap.get request.space_id state.spaces ≡ some space
    pub bound : BTreeMap.get request.binding_id (space.bindings kind) ≡ some entry
    pub same : entry.resource_key ≡ request.resource_key
    pub registered : BTreeMap.get request.resource_key (state.resource_backends kind) ≡ some backend
    pub configured :
        BTreeMap.get request.resource_key (state.resource_configs kind)
        ≡ some request.resource_config_key
    pub listed : BTreeMap.get request.resource_key (state.resources kind) ≡ some keys
    pub alone :
        BTreeSet.is_empty (BTreeSet.remove (binding_key request.space_id request.binding_id) keys)
        ≡ true

  module _ (a : IsAgain) where
    replaced-unregistered :
        BTreeMap.get request.resource_key (
          (replace_binding kind request
              (normalize_client_id client_id)
              backend
              space
              state).resource_backends
            kind)
        ≡ none
    unfolding replace_binding
    replaced-unregistered =
        rw (a.bound, ← a.same)
          (ap
              (λ (b : BackendKind → BTreeMap.BTreeMap String Backend).
                BTreeMap.get entry.resource_key (b kind))
              (backends-track kind _ (binding_key request.space_id request.binding_id)
                (normalize_client_id client_id) entry.resource_key)
            ∙ untrack-alone kind _ (binding_key request.space_id request.binding_id) entry keys
                (ap (λ r. BTreeMap.get r (state.resources kind)) a.same ∙ a.listed) a.alone)

    obtained :
        backend_for_enable_locked kind state request.resource_key request.resource_config_key make
        ≡ (ok backend, state)
    unfolding backend_for_enable_locked
    obtained =
        rw
          (
            a.registered,
            a.configured,
            eqb_refl request.resource_config_key,
            backend_for_enable_locked,
          )
          refl

    rebound_as : bind_backend kind request (normalize_client_id client_id) (ok backend, state) ≡ (
      ok (record { enabled = true; mode = "dynamic_library"; target = request.target }),
      replace_binding kind request (normalize_client_id client_id) backend space state,
    )
    rebound_as = rw (a.there, bind_backend) refl

    again :
        enable_backend kind request make client_id state
        ≡ bind_backend kind request (normalize_client_id client_id) (ok backend, state)
    unfolding enable_backend
    again = rw (a.allowed, enable_backend, obtained) refl

    -- When the only user of a resource is allowed to enable its binding again with the configuration that
    -- is registered, the request is granted and the resource has no registered backend afterwards.
    pub reenable-unregisters :
        (is_ok (enable_backend kind request make client_id state).0 ≡ true)
        × (BTreeMap.get request.resource_key
              ((enable_backend kind request make client_id state).1.resource_backends kind)
            ≡ none)
    reenable-unregisters = rw (again, rebound_as) (refl, replaced-unregistered)
