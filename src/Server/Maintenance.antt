-- ===== src/Server/Maintenance.antt =====
-- controller/src/server.rs: one round of `run_runtime_maintenance_loop`.
use vldb_controller.Base.{
  ℕ, ◌<◌, String, Option, none, some, Bool, true, false, ◌≡◌, refl, ap, sym, ◌∙◌, ◌↔◌, arith, leb,
  leb-false→lt, is_some, if◌then◌else◌, Bool-cases, inl, inr,
}
use vldb_controller.Base.Order.{str_ord}
use vldb_controller.BTreeMap
use vldb_controller.BTreeMap.Entries.{keep_if}
use vldb_controller.Runtime.State.{
  ClientState, SqliteQueryStreamEntry, ControllerState, VldbControllerRuntime,
}
use vldb_controller.Runtime.Sessions.{reap_expired_clients}
use vldb_controller.Runtime.Streams.{reap_stale_query_streams}
use vldb_controller.Runtime.Shutdown.{should_shutdown}
use vldb_controller.Server.Handlers.{Clock, maintenance_tick}
use vldb_controller.Registry.Idle.{MayStop, should_shutdown-MayStop}
use vldb_controller.Registry.Invariant.{IsConsistent}
use vldb_controller.Registry.Left.{stays}
use vldb_controller.Registry.Prune.{expired, expired_at, prune-Left}
use vldb_controller.Registry.Same.{IsConsistent-same}
use vldb_controller.Registry.Streaming.{stream_at, IsRecent, reap-exact}
use vldb_controller.Registry.Views.{profile}
use vldb_controller.Registry.Methods.{pruned, pruned-IsConsistent}

abbrev expiry : Option ClientState → ℕ
expiry none = 0
expiry (some client) = client.expires_at_unix_ms

module _ (state : ControllerState) (h : IsConsistent state) (now : ℕ) where
  -- A session that pruning leaves was there, with the same end of its lease, which is still to come.
  left-alive :
      (c : String) (client : ClientState)
      → BTreeMap.get c (pruned now state).clients ≡ some client
      → (now < client.expires_at_unix_ms)
        × ((old : ClientState) × (BTreeMap.get c state.clients ≡ some old)
            × (old.expires_at_unix_ms ≡ client.expires_at_unix_ms))
  unfolding expired
  left-alive c client e =
      go (BTreeMap.get c state.clients) refl
        (ap profile (sym e) ∙ (prune-Left state now h).0.kept c)
    where
      go :
          (o : Option ClientState)
          → BTreeMap.get c state.clients ≡ o
          → profile (some client) ≡ (
              if expired_at now (BTreeMap.get c state.clients)
              then none
              else profile (BTreeMap.get c state.clients))
          → (now < client.expires_at_unix_ms)
            × ((old : ClientState) × (BTreeMap.get c state.clients ≡ some old)
                × (old.expires_at_unix_ms ≡ client.expires_at_unix_ms))
      go none f k = let w = rw f at k in absurd cc
      go (some old) f k = elim (Bool-cases (leb old.expires_at_unix_ms now)) [
        | inl b ↦ let w = rw (f, b) at k in absurd cc
        | inr b ↦
            let w = rw (f, b) at k in
            let x = ap expiry w in (omega (arith, x, leb-false→lt _ _ b), (old, f, sym x))
      ]

  -- A session whose lease has not ended stays.
  alive-left :
      (c : String) (client : ClientState)
      → BTreeMap.get c state.clients ≡ some client
      → now < client.expires_at_unix_ms
      → (new : ClientState) × (BTreeMap.get c (pruned now state).clients ≡ some new)
        × (new.expires_at_unix_ms ≡ client.expires_at_unix_ms)
  unfolding expired
  alive-left c client e l =
      go (BTreeMap.get c (pruned now state).clients) refl ((prune-Left state now h).0.kept c)
    where
      ends : leb client.expires_at_unix_ms now ≡ false
      ends = ground arith

      go :
          (o : Option ClientState)
          → BTreeMap.get c (pruned now state).clients ≡ o
          → profile (BTreeMap.get c (pruned now state).clients) ≡ (
              if expired_at now (BTreeMap.get c state.clients)
              then none
              else profile (BTreeMap.get c state.clients))
          → (new : ClientState) × (BTreeMap.get c (pruned now state).clients ≡ some new)
            × (new.expires_at_unix_ms ≡ client.expires_at_unix_ms)
      go none f k = let w = rw (f, e, ends) at k in absurd cc
      go (some new) f k = (new, f, ap expiry (rw (f, e, ends) at k))

  left-stream :
      (id : ℕ) (entry : SqliteQueryStreamEntry)
      → stream_at id (pruned now state) ≡ some entry
      → stream_at id state ≡ some entry
  left-stream id entry e =
      go (stream_at id state) refl (sym e ∙ (prune-Left state now h).0.streams id)
    where
      go :
          (o : Option SqliteQueryStreamEntry)
          → stream_at id state ≡ o
          → some entry ≡ keep_if (stays (λ c. expired now c state)) id (stream_at id state)
          → stream_at id state ≡ some entry
      go none f k = let w = rw f at k in absurd cc
      go (some old) f k = elim (Bool-cases (stays (λ c. expired now c state) id old)) [
        | inl b ↦ let w = rw (f, b) at k in f ∙ sym w
        | inr b ↦ let w = rw (f, b) at k in absurd cc
      ]

module _ (runtime : VldbControllerRuntime) (clock : Clock) (is_complete : ℕ → Bool)
    (completed_at : ℕ → Option ℕ) (state : ControllerState) where
  -- No session of the round's start whose lease had ended is left, those that last beyond the round are, and no
  -- stream is left that was complete and not used or completed in the last five minutes.
  pub record IsReaped (after : ControllerState) : Type 0 where
    pub ended :
        (c : String) (client : ClientState)
        → BTreeMap.get c after.clients ≡ some client
        → clock.begun_unix_ms < client.expires_at_unix_ms
    pub lasting :
        (c : String) (client : ClientState)
        → BTreeMap.get c state.clients ≡ some client
        → clock.begun_unix_ms < client.expires_at_unix_ms
        → clock.called_unix_ms < client.expires_at_unix_ms
        → is_some (BTreeMap.get c after.clients) ≡ true
    pub streams :
        (id : ℕ) (entry : SqliteQueryStreamEntry)
        → stream_at id after ≡ some entry
        → (stream_at id state ≡ some entry)
          × IsRecent is_complete completed_at clock.called_unix_ms entry

  module _ (h : IsConsistent state) where
    abbrev reaped : ControllerState
    reaped =
        (reap_stale_query_streams is_complete completed_at clock.called_unix_ms
          (pruned clock.begun_unix_ms state)).1

    reaped-IsConsistent : IsConsistent reaped
    unfolding reap_stale_query_streams
    reaped-IsConsistent =
        IsConsistent-same (pruned clock.begun_unix_ms state) _ refl refl refl refl refl
          (pruned-IsConsistent state h clock.begun_unix_ms)

    reaped-IsReaped : IsReaped reaped
    unfolding reap_stale_query_streams
    reaped-IsReaped = record {
      ended = λ c client e. (left-alive state h clock.begun_unix_ms c client e).0;
      lasting = λ c client e l m.
          let (new, f, x) = alive-left state h clock.begun_unix_ms c client e l in rw f refl;
      streams = λ id entry e.
          let (f, r) =
            (reap-exact is_complete completed_at clock.called_unix_ms id
                (pruned clock.begun_unix_ms state) entry).0
              e in
          (left-stream state h clock.begun_unix_ms id entry f, r);
    }

    asked-IsReaped : IsReaped (pruned clock.called_unix_ms reaped)
    unfolding reap_stale_query_streams
    asked-IsReaped = record {
      ended = λ c client e.
          let (l, (old, f, x)) =
            left-alive reaped reaped-IsConsistent clock.called_unix_ms c client e in
          let m = reaped-IsReaped.ended c old f in omega (arith, m, x);
      lasting = λ c client e l m.
          let (new, f, x) = alive-left state h clock.begun_unix_ms c client e l in
          let (last, g, y) =
            alive-left reaped reaped-IsConsistent clock.called_unix_ms c new f
              (omega (arith, m, x)) in
          rw g refl;
      streams = λ id entry e.
          reaped-IsReaped.streams id entry
            (left-stream reaped reaped-IsConsistent clock.called_unix_ms id entry e);
    }

    -- In a consistent registry, a round of the maintenance loop leaves no session whose lease had ended when it
    -- began and no stream that is stale, keeps the sessions that outlast it, and sends the shutdown signal, which
    -- ends the loop, exactly when the signal is still there and the registry that the round leaves allows the
    -- controller to stop.
    pub maintenance-MayStop :
        (armed : Bool)
        → IsReaped (maintenance_tick runtime clock is_complete completed_at armed state).1
          × (((maintenance_tick runtime clock is_complete completed_at armed state).0 ≡ true) ↔ (
              (armed ≡ true)
              × MayStop runtime clock.now
                  (maintenance_tick runtime clock is_complete completed_at armed state).1))
    unfolding maintenance_tick should_shutdown reap_expired_clients
    maintenance-MayStop true = (
      asked-IsReaped,
      (
        λ e. (refl, (should_shutdown-MayStop runtime clock.now _).0 e),
        λ m. (should_shutdown-MayStop runtime clock.now _).1 m.1,
      ),
    )
    maintenance-MayStop false = (reaped-IsReaped, (λ e. cc, λ m. cc))

    pub maintenance-IsConsistent :
        (armed : Bool)
        → IsConsistent (maintenance_tick runtime clock is_complete completed_at armed state).1
    unfolding maintenance_tick reap_expired_clients should_shutdown
    maintenance-IsConsistent true = pruned-IsConsistent _ reaped-IsConsistent clock.called_unix_ms
    maintenance-IsConsistent false = reaped-IsConsistent
