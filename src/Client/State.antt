-- ===== src/Client/State.antt =====
-- client/src/client.rs: the session and the desired state that a client remembers for its recovery. Each
-- method locks the state once, and no holder of that lock fails. The client's binding keys have the fields and
-- the order of the controller's.
use vldb_controller.Base.{String, Option, none, some, Bool, true, false, not}
use vldb_controller.Base.Order.{eqb, str_ord}
use vldb_controller.BTreeMap
use vldb_controller.BTreeMap.{BTreeMap}
use vldb_controller.Types.{
  SpaceRegistration, ControllerSqliteEnableRequest, ControllerLanceDbEnableRequest,
}
use vldb_controller.Runtime.Key.{BindingKey, binding_key, key_ord}

pub record ClientSessionState : Type 0 where
  pub client_session_id : Option String
  pub session_needs_replay : Bool
  pub attached_spaces : BTreeMap String SpaceRegistration
  pub sqlite_bindings : BTreeMap BindingKey ControllerSqliteEnableRequest
  pub lancedb_bindings : BTreeMap BindingKey ControllerLanceDbEnableRequest

abbrev pub default_session : ClientSessionState
default_session = record {
  client_session_id = none;
  session_needs_replay = false;
  attached_spaces = BTreeMap.empty;
  sqlite_bindings = BTreeMap.empty;
  lancedb_bindings = BTreeMap.empty;
}

unfoldable pub current_session_replay_state : ClientSessionState → Option String × Bool
current_session_replay_state state = (state.client_session_id, state.session_needs_replay)

unfoldable pub store_client_session_id : String → ClientSessionState → ClientSessionState
store_client_session_id client_session_id state = record state {
  client_session_id = some client_session_id;
}

unfoldable pub clear_client_session_id : ClientSessionState → ClientSessionState
clear_client_session_id state = record state { client_session_id = none }

unfoldable pub mark_session_replay_pending : ClientSessionState → ClientSessionState
mark_session_replay_pending state = record state { session_needs_replay = true }

unfoldable pub mark_session_replay_complete : ClientSessionState → ClientSessionState
mark_session_replay_complete state = record state { session_needs_replay = false }

unfoldable pub clear_desired_session_state : ClientSessionState → ClientSessionState
clear_desired_session_state state = record {
  client_session_id = none;
  session_needs_replay = false;
  attached_spaces = BTreeMap.empty;
  sqlite_bindings = BTreeMap.empty;
  lancedb_bindings = BTreeMap.empty;
}

unfoldable pub remember_attached_space : SpaceRegistration → ClientSessionState → ClientSessionState
remember_attached_space registration state = record state {
  attached_spaces = BTreeMap.insert registration.space_id registration state.attached_spaces;
}

unfoldable pub forget_attached_space : String → ClientSessionState → ClientSessionState
forget_attached_space space_id state = record state {
  attached_spaces = BTreeMap.remove space_id state.attached_spaces;
  sqlite_bindings =
      BTreeMap.retain (λ key request. not (eqb key.space_id space_id)) state.sqlite_bindings;
  lancedb_bindings =
      BTreeMap.retain (λ key request. not (eqb key.space_id space_id)) state.lancedb_bindings;
}

unfoldable pub remember_sqlite_binding :
    ControllerSqliteEnableRequest → ClientSessionState → ClientSessionState
remember_sqlite_binding request state = record state {
  sqlite_bindings =
      BTreeMap.insert (binding_key request.space_id request.binding_id) request
        state.sqlite_bindings;
}

unfoldable pub forget_sqlite_binding : String → String → ClientSessionState → ClientSessionState
forget_sqlite_binding space_id binding_id state = record state {
  sqlite_bindings = BTreeMap.remove (binding_key space_id binding_id) state.sqlite_bindings;
}

unfoldable pub remember_lancedb_binding :
    ControllerLanceDbEnableRequest → ClientSessionState → ClientSessionState
remember_lancedb_binding request state = record state {
  lancedb_bindings =
      BTreeMap.insert (binding_key request.space_id request.binding_id) request
        state.lancedb_bindings;
}

unfoldable pub forget_lancedb_binding : String → String → ClientSessionState → ClientSessionState
forget_lancedb_binding space_id binding_id state = record state {
  lancedb_bindings = BTreeMap.remove (binding_key space_id binding_id) state.lancedb_bindings;
}
