-- ===== src/Client/Operations.antt =====
-- client/src/client.rs: the operations of the control plane. `connect` is the transport connection, which may
-- start a controller.
use vldb_controller.Base.{String, Option, none, some, Bool, true, false}
use vldb_controller.Base.Except.{Except, success, failure}
use vldb_controller.Types.{
  ClientRegistration, SpaceRegistration, SpaceSnapshot, ControllerSqliteEnableRequest,
  ControllerLanceDbEnableRequest,
}
use vldb_controller.Wire.Messages.{ProtoSpaceSnapshot}
use vldb_controller.Server.Status.{Status}
use vldb_controller.Client.State.{
  ClientSessionState, clear_desired_session_state, remember_attached_space, forget_attached_space,
  remember_sqlite_binding, forget_sqlite_binding, remember_lancedb_binding, forget_lancedb_binding,
}
use vldb_controller.Client.Calls
use vldb_controller.Client.Calls.{
  Rpc, Answer, ClientError, invalid_input, failed, map_space_snapshot, attach_request,
  enable_sqlite_request, enable_lance_db_request,
}
use vldb_controller.Client.Recovery.{Outcome, ensure_registered_session}

-- `?` between two steps of the client.
abbrev pub and_then :
    {S A B : Type 0} → Outcome S A → (A → ClientSessionState → S → Outcome S B) → Outcome S B
and_then (success a, (state, s)) next = next a state s
and_then (failure e, (state, s)) next = (failure e, (state, s))

unfoldable pub current_client_session_id : ClientSessionState → Except ClientError String
current_client_session_id state = elim state.client_session_id [
  | some client_session_id ↦ success client_session_id
  | none ↦ failure (invalid_input "controller client session is not initialized")
]

abbrev pub read_space : Except String SpaceSnapshot → Except ClientError SpaceSnapshot
read_space (success space) = success space
read_space (failure message) = failure (invalid_input message)

-- What is remembered and returned of each answer.
abbrev pub attached :
    SpaceRegistration
    → Except Status (Option ProtoSpaceSnapshot)
    → ClientSessionState
    → Except ClientError SpaceSnapshot × ClientSessionState
attached registration (success (some space)) state =
    (read_space (map_space_snapshot space), remember_attached_space registration state)
attached registration (success none) state =
    (failure (invalid_input "attach_space response is missing the space snapshot"), state)
attached registration (failure status) state = (failure (failed status), state)

abbrev pub forgotten :
    (ClientSessionState → ClientSessionState)
    → Except Status Bool
    → ClientSessionState
    → Except ClientError Bool × ClientSessionState
forgotten forget (success true) state = (success true, forget state)
forgotten forget (success false) state = (success false, state)
forgotten forget (failure status) state = (failure (failed status), state)

abbrev pub remembered :
    (ClientSessionState → ClientSessionState)
    → Except Status (Unit {0})
    → ClientSessionState
    → Except ClientError (Unit {0}) × ClientSessionState
remembered remember (success _) state = (success tt, remember state)
remembered remember (failure status) state = (failure (failed status), state)

module _ {S : Type 0} (call : (rpc : Rpc) → S → Except Status (Answer rpc) × S)
    (connect : S → Except ClientError (Unit {0}) × S) (registration : ClientRegistration) where
  abbrev pub transported :
      ClientSessionState → Except ClientError (Unit {0}) × S → Outcome S (Unit {0})
  transported state (success _, s) = ensure_registered_session call registration state s
  transported state (failure e, s) = (failure e, (state, s))

  unfoldable pub connect_client : ClientSessionState → S → Outcome S (Unit {0})
  unfolding ensure_registered_session
  connect_client state s = transported state (connect s)

  -- A client with a session makes one call for it and keeps what the answer says.
  abbrev pub in_session :
      {A : Type 0} (rpc_of : String → Rpc)
      → ((id : String)
          → Except Status (Answer (rpc_of id))
          → ClientSessionState
          → Except ClientError A × ClientSessionState)
      → ClientSessionState
      → S
      → Except ClientError String
      → Outcome S A
  in_session rpc_of keep state s (failure e) = (failure e, (state, s))
  in_session rpc_of keep state s (success id) =
      let (answer, t) = call (rpc_of id) s in
      let (result, after) = keep id answer state in (result, (after, t))

  -- `self.connect_client().await?`, and the call with the current session.
  unfoldable pub calling :
      {A : Type 0} (rpc_of : String → Rpc)
      → ((id : String)
          → Except Status (Answer (rpc_of id))
          → ClientSessionState
          → Except ClientError A × ClientSessionState)
      → ClientSessionState
      → S
      → Outcome S A
  unfolding connect_client current_client_session_id
  calling rpc_of keep state s =
      and_then (connect_client state s)
        (λ u after t. in_session rpc_of keep after t (current_client_session_id after))

  unfoldable pub attach_space : SpaceRegistration → ClientSessionState → S → Outcome S SpaceSnapshot
  unfolding calling remember_attached_space map_space_snapshot
  attach_space space =
      calling (λ id. Calls.attach_space (attach_request id space)) (λ id. attached space)

  unfoldable pub detach_space : String → ClientSessionState → S → Outcome S Bool
  unfolding calling forget_attached_space
  detach_space space_id =
      calling (λ id. Calls.detach_space (record { client_session_id = id; space_id = space_id }))
        (λ id. forgotten (forget_attached_space space_id))

  unfoldable pub enable_sqlite :
      ControllerSqliteEnableRequest → ClientSessionState → S → Outcome S (Unit {0})
  unfolding calling remember_sqlite_binding
  enable_sqlite request =
      calling (λ id. Calls.enable_sqlite (enable_sqlite_request id request))
        (λ id. remembered (remember_sqlite_binding request))

  unfoldable pub disable_sqlite : String → String → ClientSessionState → S → Outcome S Bool
  unfolding calling forget_sqlite_binding
  disable_sqlite space_id binding_id =
      calling
        (λ id.
          Calls.disable_sqlite
            (record { client_session_id = id; space_id = space_id; binding_id = binding_id }))
        (λ id. forgotten (forget_sqlite_binding space_id binding_id))

  unfoldable pub enable_lancedb :
      ControllerLanceDbEnableRequest → ClientSessionState → S → Outcome S (Unit {0})
  unfolding calling remember_lancedb_binding
  enable_lancedb request =
      calling (λ id. Calls.enable_lance_db (enable_lance_db_request id request))
        (λ id. remembered (remember_lancedb_binding request))

  unfoldable pub disable_lancedb : String → String → ClientSessionState → S → Outcome S Bool
  unfolding calling forget_lancedb_binding
  disable_lancedb space_id binding_id =
      calling
        (λ id.
          Calls.disable_lance_db
            (record { client_session_id = id; space_id = space_id; binding_id = binding_id }))
        (λ id. forgotten (forget_lancedb_binding space_id binding_id))

  abbrev unregistered : Option String → Except ClientError (Unit {0}) × S → S
  unregistered none r = r.1
  unregistered (some client_session_id) (success _, s) =
      (call (Calls.unregister_client client_session_id) s).1
  unregistered (some client_session_id) (failure e, s) = s

  -- `try_connect` is the transport connection that starts no controller. A failure of it or of the call is
  -- ignored.
  unfoldable pub shutdown :
      (S → Except ClientError (Unit {0}) × S) → ClientSessionState → S → Outcome S (Unit {0})
  unfolding clear_desired_session_state
  shutdown try_connect state s =
      (success tt, (clear_desired_session_state state, left state.client_session_id))
    where
      left : Option String → S
      left none = s
      left (some client_session_id) = unregistered (some client_session_id) (try_connect s)
