-- ===== src/Registry/Disable.antt =====
-- controller/src/core/runtime.rs: `disable_sqlite` and `disable_lancedb` as a whole.
use vldb_controller.Base.{String, Option, false, ◌≡◌, refl, arith, is_some, ◌⊎◌, inl, inr, ap}
use vldb_controller.Base.Order.{str_ord}
use vldb_controller.Runtime.Fault.{BackendKind, Result, ok, err, panic, is_ok}
use vldb_controller.Runtime.Key.{BindingKey, binding_key}
use vldb_controller.Runtime.State.{ControllerState}
use vldb_controller.Runtime.Access.{ensure_binding_access_locked}
use vldb_controller.Runtime.Bindings.{remove_binding_locked}
use vldb_controller.Runtime.Enable.{disable_backend}
use vldb_controller.Registry.Views.{binding_at}
use vldb_controller.Registry.Invariant.{IsConsistent}
use vldb_controller.Registry.Unbind.{Unbound, Unbound-remove}

removed-found :
    (kind : BackendKind) (key : BindingKey) (state : ControllerState)
    → (remove_binding_locked kind state key).0 ≡ is_some (binding_at kind key state)
unfolding remove_binding_locked binding_at
removed-found kind key state = ground arith

module _ (kind : BackendKind) (space_id binding_id : String) (client_id : Option String)
    (state : ControllerState) where
  -- In a consistent registry, disabling a binding is either refused, and the state stays as it was, or
  -- granted by the access check: then the answer says whether the binding was there, the binding is gone
  -- from its space, from its owner's list and from its resource's users, and every other binding and
  -- every attachment is as it was.
  pub disable-Unbound :
      IsConsistent state
      → ((is_ok (disable_backend kind space_id binding_id client_id state).0 ≡ false)
          × ((disable_backend kind space_id binding_id client_id state).1 ≡ state))
        ⊎ ((ensure_binding_access_locked kind state space_id binding_id client_id ≡ ok tt)
            × ((disable_backend kind space_id binding_id client_id state).0
                ≡ ok (is_some (binding_at kind (binding_key space_id binding_id) state)))
            × Unbound kind
                (binding_key space_id binding_id)
                state
                (disable_backend kind space_id binding_id client_id state).1)
  unfolding disable_backend
  disable-Unbound h =
      go (ensure_binding_access_locked kind state space_id binding_id client_id) refl
    where
      go :
          (r : Result (Unit {0}))
          → ensure_binding_access_locked kind state space_id binding_id client_id ≡ r
          → ((is_ok (disable_backend kind space_id binding_id client_id state).0 ≡ false)
              × ((disable_backend kind space_id binding_id client_id state).1 ≡ state))
            ⊎ ((ensure_binding_access_locked kind state space_id binding_id client_id ≡ ok tt)
                × ((disable_backend kind space_id binding_id client_id state).0
                    ≡ ok (is_some (binding_at kind (binding_key space_id binding_id) state)))
                × Unbound kind
                    (binding_key space_id binding_id)
                    state
                    (disable_backend kind space_id binding_id client_id state).1)
      go (ok u) e =
          rw (e, disable_backend)
            (inr (
              refl,
              ap ok (removed-found kind (binding_key space_id binding_id) state),
              Unbound-remove kind (binding_key space_id binding_id) state h.indexed,
            ))
      go (err x) e = rw (e, disable_backend) (inl (refl, refl))
      go (panic x) e = rw (e, disable_backend) (inl (refl, refl))
