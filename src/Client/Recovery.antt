-- ===== src/Client/Recovery.antt =====
-- client/src/client.rs: `ensure_registered_session`. `call` is the controller at the other end of the
-- channel, whose state is of any type. The initialisation lock is held for the whole of it.
use vldb_controller.Base.{String, Option, none, some, not, if◌then◌else◌, unwrap_or, List, [], ◌∷◌}
use vldb_controller.Base.Order.{str_ord}
use vldb_controller.Base.Except.{Except, success, failure}
use vldb_controller.BTreeMap
use vldb_controller.Types.{ClientRegistration, ClientLeaseSnapshot}
use vldb_controller.Runtime.Key.{key_ord}
use vldb_controller.Wire.Messages.{ProtoClientLeaseSnapshot}
use vldb_controller.Server.Status.{Status}
use vldb_controller.Client.State.{
  ClientSessionState, store_client_session_id, clear_client_session_id, mark_session_replay_pending,
  mark_session_replay_complete,
}
use vldb_controller.Client.Calls.{
  Rpc, Answer, ClientError, invalid_input, failed, register_client, renew_client_lease,
  attach_space, enable_sqlite, enable_lance_db, is_missing_client_session_status,
  map_client_snapshot, register_request, attach_request, enable_sqlite_request,
  enable_lance_db_request,
}

-- What a step of the client answers, and what it leaves.
abbrev pub Outcome : Type 0 → Type 0 → Type 0
Outcome S A = Except ClientError A × (ClientSessionState × S)

abbrev pub after_success :
    {S : Type 0}
    → Except ClientError (Unit {0}) × S
    → (S → Except ClientError (Unit {0}) × S)
    → Except ClientError (Unit {0}) × S
after_success (success _, s) next = next s
after_success (failure e, s) next = (failure e, s)

abbrev pub acknowledged : {A : Type 0} → Except Status A → Except ClientError (Unit {0})
acknowledged (success _) = success tt
acknowledged (failure status) = failure (failed status)

abbrev pub read_snapshot :
    Except Status (Option ProtoClientLeaseSnapshot) → Except ClientError ClientLeaseSnapshot
read_snapshot (success (some snapshot)) = success (map_client_snapshot snapshot)
read_snapshot (success none) =
    failure (invalid_input "register_client response is missing the client snapshot")
read_snapshot (failure status) = failure (failed status)

module _ {S : Type 0} (call : (rpc : Rpc) → S → Except Status (Answer rpc) × S) where
  -- A call with `.await?` whose answer is not read.
  unfoldable pub send : Rpc → S → Except ClientError (Unit {0}) × S
  send rpc s = let (answer, t) = call rpc s in (acknowledged answer, t)

  -- The loops of the replay: one call for each entry, up to the first that fails.
  unfoldable pub send_each {ℓ} :
      {A : Type ℓ} → (A → Rpc) → List A → S → Except ClientError (Unit {0}) × S
  unfolding send
  send_each rpc_of [] s = (success tt, s)
  send_each rpc_of (a ∷ rest) s = after_success (send (rpc_of a) s) (send_each rpc_of rest)

  unfoldable pub send_desired : String → ClientSessionState → S → Except ClientError (Unit {0}) × S
  unfolding send_each
  send_desired client_session_id state s =
      after_success
        (after_success
          (send_each (λ registration. attach_space (attach_request client_session_id registration))
            (BTreeMap.values state.attached_spaces) s)
          (send_each (λ request. enable_sqlite (enable_sqlite_request client_session_id request))
            (BTreeMap.values state.sqlite_bindings)))
        (send_each (λ request. enable_lance_db (enable_lance_db_request client_session_id request))
          (BTreeMap.values state.lancedb_bindings))

  abbrev pub finish_replay :
      ClientSessionState → Except ClientError (Unit {0}) × S → Outcome S (Unit {0})
  finish_replay state (success _, t) = (success tt, (mark_session_replay_complete state, t))
  finish_replay state (failure e, t) = (failure e, (state, t))

  -- The desired state is sent again, and the replay is marked complete if all of it is accepted.
  unfoldable pub replay : String → ClientSessionState → S → Outcome S (Unit {0})
  unfolding send_desired mark_session_replay_complete
  replay client_session_id state s = finish_replay state (send_desired client_session_id state s)

  module _ (registration : ClientRegistration) where
    -- The client's own `register_client`.
    unfoldable pub register : S → Except ClientError ClientLeaseSnapshot × S
    unfolding map_client_snapshot register_request
    register s =
        let (answer, t) = call (register_client (register_request registration)) s in
        (read_snapshot answer, t)

    -- A new session is stored before the desired state is sent.
    abbrev pub adopt :
        ClientSessionState → Except ClientError ClientLeaseSnapshot × S → Outcome S (Unit {0})
    adopt state (success snapshot, s) =
        replay snapshot.client_session_id
          (mark_session_replay_pending (store_client_session_id snapshot.client_session_id state)) s
    adopt state (failure e, s) = (failure e, (state, s))

    -- What the answer to the renewal leads to.
    abbrev pub renewed :
        String → ClientSessionState → Except Status (Unit {0}) × S → Outcome S (Unit {0})
    renewed client_session_id state (success _, s) =
        if not state.session_needs_replay
        then (success tt, (state, s))
        else replay client_session_id state s
    renewed client_session_id state (failure status, s) =
        if is_missing_client_session_status status
        then adopt (clear_client_session_id state) (register s)
        else (failure (failed status), (state, s))

    abbrev pub renew_or_register : Option String → ClientSessionState → S → Outcome S (Unit {0})
    renew_or_register (some client_session_id) state s = renewed client_session_id state (
        call
          (renew_client_lease (record {
            client_session_id = client_session_id;
            lease_ttl_secs = unwrap_or registration.lease_ttl_secs 0;
          }))
          s)
    renew_or_register none state s = adopt state (register s)

    unfoldable pub ensure_registered_session : ClientSessionState → S → Outcome S (Unit {0})
    unfolding replay register is_missing_client_session_status
    ensure_registered_session state s = renew_or_register state.client_session_id state s
