-- ===== src/Registry/Methods.antt =====
-- controller/src/core/runtime.rs: every method that changes the state keeps the registry consistent.
use vldb_controller.Base.{
  ℕ, String, Option, none, some, Bool, true, false, ◌≡◌, refl, inl, inr, Bool-cases, Option-cases,
  arith,
}
use vldb_controller.Base.Order.{str_ord, nat_ord}
use vldb_controller.Base.Text.{is_blank}
use vldb_controller.Base.Word.{saturating_add}
use vldb_controller.BTreeMap
use vldb_controller.Types.{ClientRegistration}
use vldb_controller.Runtime.Fault.{BackendKind, Result, ok, err, panic}
use vldb_controller.Runtime.Key.{binding_key}
use vldb_controller.Runtime.State.{Backend, ControllerState, VldbControllerRuntime}
use vldb_controller.Runtime.Clients.{prune_expired_clients_locked}
use vldb_controller.Runtime.Validate.{validate_client_registration}
use vldb_controller.Runtime.Access.{ensure_binding_access_locked}
use vldb_controller.Runtime.Sessions.{
  renew_requesting_client, record_request, begin_request_with_activity, register_client,
  renew_client, unregister_client,
}
use vldb_controller.Runtime.Enable.{EnableRequest, enable_backend, disable_backend}
use vldb_controller.Runtime.Streams.{stream_for, sqlite_query_stream_handle}
use vldb_controller.Registry.Invariant.{IsConsistent}
use vldb_controller.Registry.Same.{IsConsistent-same}
use vldb_controller.Registry.Prune.{registered, prune-Left, remove_client-Left}
use vldb_controller.Registry.Remove.{remove-IsConsistent}
use vldb_controller.Registry.EnableBackend.{enable_backend-Outcome}
use vldb_controller.Registry.Session.{
  insert_client-IsConsistent, touch-IsConsistent, renew-IsConsistent,
}

abbrev pub pruned : ℕ → ControllerState → ControllerState
pruned now state = (prune_expired_clients_locked state now).1

module _ (state : ControllerState) (h : IsConsistent state) where
  pub pruned-IsConsistent : (now : ℕ) → IsConsistent (pruned now state)
  pruned-IsConsistent now = (prune-Left state now h).1

  pub enable-IsConsistent :
      (kind : BackendKind) (request : EnableRequest) (make : Result Backend)
      (client_id : Option String)
      → IsConsistent (enable_backend kind request make client_id state).1
  enable-IsConsistent kind request make client_id =
      elim (enable_backend-Outcome kind request client_id state h make) [
        | inl r ↦ rw r.1 h
        | inr r ↦ r.1.consistent
      ]

  pub disable-IsConsistent :
      (kind : BackendKind) (space_id binding_id : String) (client_id : Option String)
      → IsConsistent (disable_backend kind space_id binding_id client_id state).1
  unfolding disable_backend
  disable-IsConsistent kind space_id binding_id client_id =
      go (ensure_binding_access_locked kind state space_id binding_id client_id) refl
    where
      go :
          (r : Result (Unit {0}))
          → ensure_binding_access_locked kind state space_id binding_id client_id ≡ r
          → IsConsistent (disable_backend kind space_id binding_id client_id state).1
      go (ok u) e =
          rw (e, disable_backend)
            (remove-IsConsistent kind (binding_key space_id binding_id) state h)
      go (err x) e = rw (e, disable_backend) h
      go (panic x) e = rw (e, disable_backend) h

  pub handle-IsConsistent :
      (now id : ℕ) (client_id : Option String)
      → IsConsistent (sqlite_query_stream_handle now id client_id state).1
  unfolding sqlite_query_stream_handle
  handle-IsConsistent now id client_id = go (stream_for id client_id state) refl
    where
      go :
          (r : Result ℕ)
          → stream_for id client_id state ≡ r
          → IsConsistent (sqlite_query_stream_handle now id client_id state).1
      go (ok u) e =
          rw (e, sqlite_query_stream_handle) (IsConsistent-same state _ refl refl refl refl refl h)
      go (err x) e = rw (e, sqlite_query_stream_handle) h
      go (panic x) e = rw (e, sqlite_query_stream_handle) h

  renew_requesting-IsConsistent :
      (runtime : VldbControllerRuntime) (now : ℕ) (client_id : Option String)
      → IsConsistent (renew_requesting_client runtime now client_id state)
  renew_requesting-IsConsistent runtime now none = h
  renew_requesting-IsConsistent runtime now (some client_id) =
      elim (Bool-cases (is_blank client_id)) [
        | inl e ↦ rw e h
        | inr e ↦ rw e (touch-IsConsistent runtime now client_id state h)
      ]

  pub unregister-IsConsistent :
      (now : ℕ) (client_id : String) → IsConsistent (unregister_client now client_id state).1
  unfolding unregister_client
  unregister-IsConsistent now client_id =
      (remove_client-Left (pruned now state) client_id (pruned-IsConsistent now)).1

  pub renew_client-IsConsistent :
      (runtime : VldbControllerRuntime) (now : ℕ) (client_id : String) (ttl : Option ℕ)
      → IsConsistent (renew_client runtime now client_id ttl state).1
  unfolding renew_client
  renew_client-IsConsistent runtime now client_id ttl =
      elim (Option-cases (BTreeMap.get client_id (pruned now state).clients)) [
        | inl e ↦ rw (e, renew_client) (pruned-IsConsistent now)
        | inr (client, e) ↦
            rw (e, renew_client)
              (renew-IsConsistent runtime now ttl client_id (pruned now state)
                (pruned-IsConsistent now))
      ]

  -- The session identifier is new to the registry.
  pub register-IsConsistent :
      (runtime : VldbControllerRuntime) (now : ℕ) (sid : String) (registration : ClientRegistration)
      → registered sid (pruned now state) ≡ false
      → IsConsistent (register_client runtime now sid registration state).1
  unfolding register_client registered
  register-IsConsistent runtime now sid registration fresh =
      go (validate_client_registration registration) refl
    where
      absent : BTreeMap.get sid (pruned now state).clients ≡ none
      absent = ground arith

      go :
          (r : Result (Unit {0}))
          → validate_client_registration registration ≡ r
          → IsConsistent (register_client runtime now sid registration state).1
      go (ok u) e =
          rw (e, register_client)
            (insert_client-IsConsistent runtime now sid registration (pruned now state) absent
              (pruned-IsConsistent now))
      go (err x) e = rw (e, register_client) h
      go (panic x) e = rw (e, register_client) h

-- The request is counted as in flight.
abbrev counting : ControllerState → ControllerState
counting state = record state { inflight_requests = saturating_add state.inflight_requests 1 }

pub begin-IsConsistent :
    (runtime : VldbControllerRuntime) (now now_ms : ℕ) (client_id : Option String)
    (record_activity : Bool) (state : ControllerState)
    → IsConsistent state
    → IsConsistent (begin_request_with_activity runtime now now_ms client_id record_activity state)
unfolding begin_request_with_activity
begin-IsConsistent runtime now now_ms client_id record_activity state h =
    renew_requesting-IsConsistent _ (recorded record_activity) runtime now_ms client_id
  where
    counted : IsConsistent (pruned now_ms (counting state))
    counted =
        pruned-IsConsistent (counting state)
          (IsConsistent-same state (counting state) refl refl refl refl refl h) now_ms

    recorded :
        (b : Bool) → IsConsistent (record_request b now now_ms (pruned now_ms (counting state)))
    recorded true =
        IsConsistent-same (pruned now_ms (counting state)) _ refl refl refl refl refl counted
    recorded false = counted
