-- ===== src/Registry/EnableBackend.antt =====
-- controller/src/core/runtime.rs: `enable_sqlite` and `enable_lancedb` as a whole.
use vldb_controller.Base.{
  String, Option, none, some, true, false, ◌≡◌, refl, Option-cases, inl, inr, ◌⊎◌, Bool-cases,
}
use vldb_controller.Base.Order.{eqb, str_ord}
use vldb_controller.BTreeMap
use vldb_controller.Types.{SpaceBackendStatus}
use vldb_controller.Runtime.Fault.{BackendKind, Result, ok, err, panic, is_ok}
use vldb_controller.Runtime.Key.{key_ord, binding_key}
use vldb_controller.Runtime.State.{Backend, SpaceState, ControllerState}
use vldb_controller.Runtime.Keys.{normalize_client_id}
use vldb_controller.Runtime.Enable.{
  EnableRequest, ensure_enable_allowed, backend_for_enable_locked, enable_backend, bind_backend,
  register_new, reuse_backend,
}
use vldb_controller.Registry.Invariant.{IsConsistent}
use vldb_controller.Registry.Enabling.{rebound, new_binding, Bound-new}
use vldb_controller.Registry.Allowed.{IsAllowed, ensure_enable_allowed-IsAllowed}
use vldb_controller.Registry.Replace.{Bound}

-- The binding is there, with the backend and the caller as its owner, and the registry is consistent.
pub record Enabled (kind : BackendKind) (request : EnableRequest) (client_id : Option String)
    (state after : ControllerState) : Type 0 where
  pub owner : String
  pub backend : Backend
  pub client : normalize_client_id client_id ≡ some owner
  pub consistent : IsConsistent after
  pub bound :
      Bound kind
        (binding_key request.space_id request.binding_id)
        (record {
          owner_client_id = some owner;
          resource_key = request.resource_key;
          backend = backend;
        })
        state
        after

-- A refusal leaves the state as it was.
abbrev pub Refused : Result SpaceBackendStatus × ControllerState → ControllerState → Type 0
Refused r state = (is_ok r.0 ≡ false) × (r.1 ≡ state)

abbrev pub Outcome :
    BackendKind
    → EnableRequest
    → Option String
    → ControllerState
    → Result SpaceBackendStatus × ControllerState
    → Type 0
Outcome kind request client_id state r =
    Refused r state ⊎ ((is_ok r.0 ≡ true) × Enabled kind request client_id state r.1)

module _ (kind : BackendKind) (request : EnableRequest) (client_id : Option String)
    (state : ControllerState) (h : IsConsistent state) where
  module _ (owner : String) (space : SpaceState)
      (a : IsAllowed kind request client_id state owner space) where
    old :
        (backend : Backend)
        → Outcome kind request client_id state
            (bind_backend kind request (some owner) (ok backend, state))
    old backend =
        let (consistent, bound) = rebound kind request client_id state h owner space a backend in
        rw (a.there, bind_backend)
          (inr (
            refl,
            record {
              owner = owner;
              backend = backend;
              client = a.client;
              consistent = consistent;
              bound = bound;
            },
          ))

    fresh :
        (make : Result Backend)
        → Outcome kind request client_id state (
            bind_backend kind request
              (some owner)
              (register_new kind request.resource_key request.resource_config_key make state))
    fresh (ok backend) =
        let (consistent, bound) =
          new_binding kind request client_id state h owner space a backend
            request.resource_config_key in
        rw (a.there, bind_backend)
          (inr (
            refl,
            record {
              owner = owner;
              backend = backend;
              client = a.client;
              consistent = consistent;
              bound =
                  Bound-new kind request client_id state h owner space a backend
                    request.resource_config_key _ bound;
            },
          ))
    fresh (err e) = inl (refl, refl)
    fresh (panic message) = inl (refl, refl)

    reused :
        (backend : Backend) (config : Option String)
        → Outcome kind request client_id state (
            bind_backend kind request (some owner) (
              reuse_backend kind request.resource_key request.resource_config_key backend config,
              state,
            ))
    reused backend none = inl (refl, refl)
    reused backend (some c) = elim (Bool-cases (eqb c request.resource_config_key)) [
      | inl e ↦ rw (e, bind_backend) (old backend)
      | inr e ↦ rw (e, bind_backend) (inl (refl, refl))
    ]

    obtained :
        (make : Result Backend)
        → Outcome kind request client_id state (
            bind_backend kind request (some owner) (
              backend_for_enable_locked kind state request.resource_key request.resource_config_key
                make))
    unfolding backend_for_enable_locked
    obtained make =
        elim (Option-cases (BTreeMap.get request.resource_key (state.resource_backends kind))) [
          | inl e ↦ rw (e, backend_for_enable_locked) (fresh make)
          | inr (backend, e) ↦
              rw (e, backend_for_enable_locked)
                (reused backend (BTreeMap.get request.resource_key (state.resource_configs kind)))
        ]

  -- In a consistent registry, enabling a backend is either refused and changes nothing, or it is granted:
  -- then the caller has a trimmed name, the binding is there with the caller as its owner and the
  -- resource that the request names, every other binding, every attachment and every stream is as it was,
  -- and the registry is consistent.
  pub enable_backend-Outcome :
      (make : Result Backend)
      → Outcome kind request client_id state (enable_backend kind request make client_id state)
  unfolding enable_backend
  enable_backend-Outcome make = go (ensure_enable_allowed kind request client_id state) refl
    where
      go :
          (r : Result (Unit {0}))
          → ensure_enable_allowed kind request client_id state ≡ r
          → Outcome kind request client_id state (enable_backend kind request make client_id state)
      go (ok u) e =
          let (owner, space, a) = ensure_enable_allowed-IsAllowed kind request client_id state e in
          rw (e, a.client, enable_backend) (obtained owner space a make)
      go (err x) e = rw (e, enable_backend) (inl (refl, refl))
      go (panic x) e = rw (e, enable_backend) (inl (refl, refl))
