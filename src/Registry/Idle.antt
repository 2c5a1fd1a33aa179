-- ===== src/Registry/Idle.antt =====
-- controller/src/core/runtime.rs: when the runtime lets its process end, and the count of requests.
use vldb_controller.Base.{
  ℕ, ◌<◌, String, Option, none, some, Bool, true, false, ◌≡◌, refl, arith, ◌↔◌, if◌then◌else◌, ◌∙◌,
  ap, ◌+◌, ◌*◌, ◌≤◌, max, inl, inr, Bool-cases, is_some,
}
use vldb_controller.Base.Order.{str_ord, nat_ord}
use vldb_controller.Base.Word.{saturating_sub, saturating_add, u64_max}
use vldb_controller.BTreeMap
use vldb_controller.BTreeMap.Entries.{holds_at}
use vldb_controller.BTreeSet
use vldb_controller.Types.{managed}
use vldb_controller.Runtime.State.{SpaceState, ControllerState, VldbControllerRuntime}
use vldb_controller.Runtime.Sessions.{
  begin_request, begin_diagnostic_request, begin_request_with_activity, end_request,
  renew_requesting_client, record_request,
}
use vldb_controller.Runtime.Shutdown.{should_shutdown_locked, is_in_use}
use vldb_controller.Registry.Views.{
  SameCounters, attached_by_space, binding_at, binding_in, space_attached,
}
use vldb_controller.Runtime.Fault.{BackendKind, sqlite, lancedb}
use vldb_controller.Runtime.Key.{BindingKey}
use vldb_controller.Registry.Same.{IsConsistent-same}
use vldb_controller.Registry.Prune.{prune-Left}
use vldb_controller.Registry.Invariant.{IsConsistent}
use vldb_controller.Registry.Methods.{pruned}

-- What makes a controller stop itself. Instants are in nanoseconds.
pub record MayStop (runtime : VldbControllerRuntime) (now : ℕ) (state : ControllerState)
    : Type 0 where
  pub managed_mode : runtime.server_config.runtime.process_mode ≡ managed
  pub old_enough :
      runtime.started_at + runtime.server_config.runtime.minimum_uptime_secs * 1_000_000_000
      ≤ max now runtime.started_at
  pub no_session : (c : String) → BTreeMap.get c state.clients ≡ none
  pub no_request : state.inflight_requests ≡ 0
  pub no_stream : (id : ℕ) → BTreeMap.get id state.sqlite_query_streams ≡ none
  pub no_attachment : (c s : String) → attached_by_space c s state ≡ false
  pub no_binding : (k : BackendKind) (j : BindingKey) → binding_at k j state ≡ none
  pub idle :
      state.last_request_at + runtime.server_config.runtime.idle_timeout_secs * 1_000_000_000
      ≤ max now state.last_request_at

-- A space that is not in use has no client and no binding.
unused :
    (space : SpaceState)
    → is_in_use space ≡ false
    → ((c : String) → BTreeSet.contains c space.attached_clients ≡ false)
      × ((k : BackendKind) (b : String) → BTreeMap.get b (space.bindings k) ≡ none)
unfolding is_in_use
unused space e = (BTreeSet.contains_of_is_empty space.attached_clients (ground arith), bindings)
  where
    bindings : (k : BackendKind) (b : String) → BTreeMap.get b (space.bindings k) ≡ none
    bindings sqlite = BTreeMap.get_of_is_empty (space.bindings sqlite) (ground arith)
    bindings lancedb = BTreeMap.get_of_is_empty (space.bindings lancedb) (ground arith)

not_in_use :
    (space : SpaceState)
    → ((c : String) → BTreeSet.contains c space.attached_clients ≡ false)
    → ((k : BackendKind) (b : String) → BTreeMap.get b (space.bindings k) ≡ none)
    → is_in_use space ≡ false
unfolding is_in_use BTreeSet.is_empty BTreeSet.contains
not_in_use space a b =
    rw
      (
        BTreeMap.is_empty_of_get space.attached_clients (λ c. none_of (a c)),
        BTreeMap.is_empty_of_get (space.bindings sqlite) (b sqlite),
        BTreeMap.is_empty_of_get (space.bindings lancedb) (b lancedb),
      )
      refl
  where
    none_of : {o : Option (Unit {0})} → is_some o ≡ false → o ≡ none
    none_of {o = none} e = refl
    none_of {o = some u} e = absurd cc

module _ (state : ControllerState) where
  spaces-unused :
      BTreeMap.any (λ id space. is_in_use space) state.spaces ≡ false
      → ((c s : String) → attached_by_space c s state ≡ false)
        × ((k : BackendKind) (j : BindingKey) → binding_at k j state ≡ none)
  unfolding attached_by_space binding_at
  spaces-unused e = (
    λ c s. attached c s (BTreeMap.get s state.spaces) (at s),
    λ k j. bound k j (BTreeMap.get j.space_id state.spaces) (at j.space_id),
  )
    where
      at :
          (s : String)
          → holds_at {K = String} (λ id space. is_in_use space) s (BTreeMap.get s state.spaces)
            ≡ false
      at = BTreeMap.any-false (λ id space. is_in_use space) state.spaces e

      attached :
          (c s : String) (o : Option SpaceState)
          → holds_at {K = String} (λ id space. is_in_use space) s o ≡ false
          → space_attached c o ≡ false
      attached c s none h = refl
      attached c s (some space) h = (unused space h).0 c

      bound :
          (k : BackendKind) (j : BindingKey) (o : Option SpaceState)
          → holds_at {K = String} (λ id space. is_in_use space) j.space_id o ≡ false
          → binding_in k j o ≡ none
      bound k j none h = refl
      bound k j (some space) h = (unused space h).1 k j.binding_id

  unused-spaces :
      ((c s : String) → attached_by_space c s state ≡ false)
      → ((k : BackendKind) (j : BindingKey) → binding_at k j state ≡ none)
      → BTreeMap.any (λ id space. is_in_use space) state.spaces ≡ false
  unfolding attached_by_space binding_at
  unused-spaces a b = elim (Bool-cases (BTreeMap.any (λ id space. is_in_use space) state.spaces)) [
    | inr e ↦ e
    | inl e ↦
        let (id, space, g, u) = BTreeMap.any-true (λ id space. is_in_use space) state.spaces e in
        let n =
          not_in_use space (λ c. rw g at (a c id))
            (λ k x. rw g at (b k (record { space_id = id; binding_id = x }))) in
        absurd cc
  ]

module _ (runtime : VldbControllerRuntime) (now : ℕ) (state : ControllerState) where
  stop→may : should_shutdown_locked runtime now state ≡ true → MayStop runtime now state
  unfolding should_shutdown_locked saturating_sub
  stop→may e = record {
    managed_mode = ground arith;
    old_enough = ground arith;
    no_session = BTreeMap.get_of_is_empty state.clients (ground arith);
    no_request = ground arith;
    no_stream = BTreeMap.get_of_is_empty state.sqlite_query_streams (ground arith);
    no_attachment = (spaces-unused state (ground arith)).0;
    no_binding = (spaces-unused state (ground arith)).1;
    idle = ground arith;
  }

  may→stop : MayStop runtime now state → should_shutdown_locked runtime now state ≡ true
  unfolding should_shutdown_locked saturating_sub
  may→stop m =
      let c : BTreeMap.is_empty state.clients ≡ true =
        BTreeMap.is_empty_of_get state.clients m.no_session in
      let q : BTreeMap.is_empty state.sqlite_query_streams ≡ true =
        BTreeMap.is_empty_of_get state.sqlite_query_streams m.no_stream in
      ground (
        arith,
        m.managed_mode,
        m.old_enough,
        c,
        m.no_request,
        q,
        unused-spaces state m.no_attachment m.no_binding,
        m.idle,
      )

  -- The runtime asks for its own end exactly when it is managed, has run for the minimum uptime, has no
  -- session, no request and no query stream, no space to which a client is attached and none with a SQLite or
  -- LanceDB binding, and has been idle for the configured time.
  pub should_shutdown-MayStop :
      (should_shutdown_locked runtime now state ≡ true) ↔ MayStop runtime now state
  should_shutdown-MayStop = (stop→may, may→stop)

renewed-counters :
    (runtime : VldbControllerRuntime) (now : ℕ) (client_id : Option String)
    (state : ControllerState)
    → SameCounters (renew_requesting_client runtime now client_id state) state
renewed-counters runtime now none state = (refl, refl, refl, refl)
renewed-counters runtime now (some client_id) state = ground arith

recorded-counters :
    (b : Bool) (now now_ms : ℕ) (state : ControllerState)
    → ((record_request b now now_ms state).inflight_requests ≡ state.inflight_requests)
      × ((record_request b now now_ms state).last_request_at
          ≡ (if b then now else state.last_request_at))
recorded-counters true now now_ms state = (refl, refl)
recorded-counters false now now_ms state = (refl, refl)

abbrev counting : ControllerState → ControllerState
counting state = record state { inflight_requests = saturating_add state.inflight_requests 1 }

begin-counters :
    (runtime : VldbControllerRuntime) (now now_ms : ℕ) (client_id : Option String) (activity : Bool)
    (state : ControllerState)
    → IsConsistent (counting state)
    → ((begin_request_with_activity runtime now now_ms client_id activity state).inflight_requests
        ≡ saturating_add state.inflight_requests 1)
      × ((begin_request_with_activity runtime now now_ms client_id activity state).last_request_at
          ≡ (if activity then now else state.last_request_at))
unfolding begin_request_with_activity
begin-counters runtime now now_ms client_id activity state h =
    let p = (prune-Left (counting state) now_ms h).0.counters in
    let mid = pruned now_ms (counting state) in
    let r = recorded-counters activity now now_ms mid in
    let c = renewed-counters runtime now_ms client_id (record_request activity now now_ms mid) in
    (c.3 ∙ r.0 ∙ p.3, c.0 ∙ r.1 ∙ ap (λ x. if activity then now else x) p.0)

-- In a consistent registry, a request that begins and ends leaves the number of requests in flight as it
-- was, below the last 64-bit value; a request that is counted as activity restarts the idle time, and a
-- diagnostic request does not.
pub request-counted :
    (runtime : VldbControllerRuntime) (now now_ms : ℕ) (client_id : Option String)
    (state : ControllerState)
    → IsConsistent state
    → state.inflight_requests < u64_max
    → ((end_request (begin_request runtime now now_ms client_id state)).inflight_requests
        ≡ state.inflight_requests)
      × ((end_request (begin_diagnostic_request runtime now now_ms state)).inflight_requests
          ≡ state.inflight_requests)
      × ((begin_request runtime now now_ms client_id state).last_request_at ≡ now)
      × ((begin_diagnostic_request runtime now now_ms state).last_request_at
          ≡ state.last_request_at)
unfolding begin_request begin_diagnostic_request end_request saturating_add saturating_sub
request-counted runtime now now_ms client_id state h small =
    let c = IsConsistent-same state (counting state) refl refl refl refl refl h in
    let p = begin-counters runtime now now_ms client_id true state c in
    let q = begin-counters runtime now now_ms none false state c in
    (omega (arith, p.0), omega (arith, q.0), p.1, q.1)
