-- ===== src/Server/Handlers.antt =====
-- controller/src/server.rs: the handlers of the control plane. Each takes the lock once when the request
-- begins, once or twice for its work, and once when the guard of the request is dropped. What the clocks
-- show in between is in `Clock`; `sid` is the fresh session identifier.
use Prim.Native.String.{◌++◌}
use vldb_controller.Base.{ℕ, String, Option, none, some, Bool, true, false, List, map}
use vldb_controller.Base.Order.{str_ord, nat_ord}
use vldb_controller.Types.{SpaceKind}
use vldb_controller.Runtime.Fault.{Result, ok}
use vldb_controller.Runtime.State.{ControllerState, VldbControllerRuntime}
use vldb_controller.Runtime.Sessions.{
  begin_request, begin_diagnostic_request, end_request, register_client, renew_client,
  unregister_client, list_clients, reap_expired_clients,
}
use vldb_controller.Runtime.Spaces.{attach_space, detach_space}
use vldb_controller.Runtime.Listing.{list_spaces}
use vldb_controller.Runtime.Backends.{
  SqliteOpenOptions, DatabaseRuntimeConfig, LanceDbEngineOptions,
}
use vldb_controller.Runtime.Enable.{enable_sqlite, enable_lancedb, disable_sqlite, disable_lancedb}
use vldb_controller.Runtime.Streams.{reap_stale_query_streams}
use vldb_controller.Runtime.Shutdown.{status_snapshot, should_shutdown}
use vldb_controller.Wire.Messages.{
  BackendStatus, ProtoSpaceSnapshot, ProtoClientLeaseSnapshot, ProtoControllerStatusSnapshot,
  RegisterClientRequest, RenewClientLeaseRequest, AttachSpaceRequest, DetachSpaceRequest,
  EnableSqliteRequest, EnableLanceDbRequest, DisableBackendRequest,
}
use vldb_controller.Server.Status.{
  invalid_argument, Reply, refused, reply, optional_client_session_id, zero_as_none,
}
use vldb_controller.Server.Convert.{
  map_backend_status, map_client_snapshot, map_space_snapshot, map_diagnostic_space_snapshot,
  map_controller_status_snapshot, map_proto_space_kind, registration_of, sqlite_request_of,
  lancedb_request_of,
}

-- The monotonic clock, the wall clock when the request begins and the wall clock when the work is done.
pub record Clock : Type 0 where
  pub now : ℕ
  pub begun_unix_ms : ℕ
  pub called_unix_ms : ℕ

abbrev pub Handler {ℓ} : Type ℓ → Type ℓ
Handler A = ControllerState → Reply A × ControllerState

abbrev pub Method {ℓ} : Type ℓ → Type ℓ
Method A = ControllerState → Result A × ControllerState

-- The answer is made of what a method of the runtime returns.
unfoldable pub answering {ℓ κ} : {A : Type ℓ} {B : Type κ} → (A → B) → Method A → Handler B
unfolding reply
answering f call state = let (r, after) = call state in (reply f r, after)

module _ (runtime : VldbControllerRuntime) (clock : Clock) where
  -- `let _guard = self.begin_request(client_id)?;`: the guard is dropped whatever the work answers.
  unfoldable pub with_request {ℓ} : {B : Type ℓ} → Option String → Handler B → Handler B
  unfolding begin_request end_request
  with_request client_id work state =
      let (r, after) = work (begin_request runtime clock.now clock.begun_unix_ms client_id state) in
      (r, end_request after)

  unfoldable pub with_diagnostic_request {ℓ} : {B : Type ℓ} → Handler B → Handler B
  unfolding begin_diagnostic_request end_request
  with_diagnostic_request work state =
      let (r, after) =
        work (begin_diagnostic_request runtime clock.now clock.begun_unix_ms state) in
      (r, end_request after)

  unfoldable pub get_status : Handler ProtoControllerStatusSnapshot
  unfolding with_diagnostic_request answering status_snapshot map_controller_status_snapshot
  get_status = with_diagnostic_request (
      answering map_controller_status_snapshot
        (status_snapshot runtime clock.now clock.called_unix_ms))

  unfoldable pub register_client_handler :
      String → RegisterClientRequest → Handler ProtoClientLeaseSnapshot
  unfolding with_request answering register_client map_client_snapshot registration_of
  register_client_handler sid req = with_request none (
      answering map_client_snapshot
        (register_client runtime clock.called_unix_ms sid (registration_of req)))

  unfoldable pub renew_client_lease : RenewClientLeaseRequest → Handler ProtoClientLeaseSnapshot
  unfolding with_request answering renew_client map_client_snapshot zero_as_none
  renew_client_lease req = with_request (some req.client_session_id) (
      answering map_client_snapshot (
        renew_client runtime clock.called_unix_ms req.client_session_id
          (zero_as_none req.lease_ttl_secs)))

  unfoldable pub unregister_client_handler : String → Handler Bool
  unfolding with_request answering unregister_client
  unregister_client_handler client_session_id =
      with_request (some client_session_id)
        (answering (λ removed. removed) (unregister_client clock.called_unix_ms client_session_id))

  -- The listings are refused before a request begins when they name no session.
  abbrev pub listing {ℓ} : {A : Type ℓ} → String → Option String → (String → Handler A) → Handler A
  listing name none work state = (
    refused (record {
      code = invalid_argument;
      text = name ++ " requires one registered client_session_id";
    }),
    state,
  )
  listing name (some client_id) work state = with_diagnostic_request (work client_id) state

  unfoldable pub list_clients_handler : String → Handler (List ProtoClientLeaseSnapshot)
  unfolding with_diagnostic_request answering list_clients map_client_snapshot
      optional_client_session_id
  list_clients_handler client_session_id =
      listing "list_clients" (optional_client_session_id client_session_id) (λ client_id.
        answering (map map_client_snapshot) (list_clients clock.called_unix_ms (some client_id)))

  unfoldable pub list_spaces_handler : String → Handler (List ProtoSpaceSnapshot)
  unfolding with_diagnostic_request answering list_spaces map_diagnostic_space_snapshot
      optional_client_session_id
  list_spaces_handler client_session_id =
      listing "list_spaces" (optional_client_session_id client_session_id) (λ client_id.
        answering (map map_diagnostic_space_snapshot)
          (list_spaces clock.called_unix_ms (some client_id)))

  -- The kind is read after the request has begun.
  abbrev pub attach_known : Option SpaceKind → AttachSpaceRequest → Handler ProtoSpaceSnapshot
  attach_known none req state = (
    refused
        (record { code = invalid_argument; text = "space_kind must be root, user, or project" }),
    state,
  )
  attach_known (some kind) req state =
      answering map_space_snapshot
        (attach_space clock.called_unix_ms
          (record {
            space_id = req.space_id;
            space_label = req.space_label;
            space_kind = kind;
            space_root = req.space_root;
          })
          (optional_client_session_id req.client_session_id))
        state

  unfoldable pub attach_space_handler : AttachSpaceRequest → Handler ProtoSpaceSnapshot
  unfolding with_request answering attach_space map_space_snapshot map_proto_space_kind
      optional_client_session_id
  attach_space_handler req =
      with_request (optional_client_session_id req.client_session_id)
        (attach_known (map_proto_space_kind req.space_kind) req)

  unfoldable pub detach_space_handler : DetachSpaceRequest → Handler Bool
  unfolding with_request answering detach_space optional_client_session_id
  detach_space_handler req = with_request (optional_client_session_id req.client_session_id) (
      answering (λ detached. detached)
        (detach_space clock.called_unix_ms req.space_id
          (optional_client_session_id req.client_session_id)))

  unfoldable pub enable_sqlite_handler :
      (SqliteOpenOptions → String → Result ℕ) → EnableSqliteRequest → Handler BackendStatus
  unfolding with_request answering enable_sqlite map_backend_status sqlite_request_of
      optional_client_session_id
  enable_sqlite_handler open_database req =
      with_request (optional_client_session_id req.client_session_id) (
        answering map_backend_status (
          enable_sqlite open_database (sqlite_request_of req)
            (optional_client_session_id req.client_session_id)))

  unfoldable pub disable_sqlite_handler : DisableBackendRequest → Handler Bool
  unfolding with_request answering disable_sqlite optional_client_session_id
  disable_sqlite_handler req = with_request (optional_client_session_id req.client_session_id) (
      answering (λ disabled. disabled)
        (disable_sqlite req.space_id req.binding_id
          (optional_client_session_id req.client_session_id)))

  unfoldable pub enable_lance_db_handler :
      (DatabaseRuntimeConfig → LanceDbEngineOptions → Result ℕ)
      → EnableLanceDbRequest
      → Handler BackendStatus
  unfolding with_request answering enable_lancedb map_backend_status lancedb_request_of
      optional_client_session_id
  enable_lance_db_handler open_runtime req =
      with_request (optional_client_session_id req.client_session_id) (
        answering map_backend_status (
          enable_lancedb open_runtime (lancedb_request_of req)
            (optional_client_session_id req.client_session_id)))

  unfoldable pub disable_lance_db_handler : DisableBackendRequest → Handler Bool
  unfolding with_request answering disable_lancedb optional_client_session_id
  disable_lance_db_handler req = with_request (optional_client_session_id req.client_session_id) (
      answering (λ disabled. disabled)
        (disable_lancedb req.space_id req.binding_id
          (optional_client_session_id req.client_session_id)))

-- One round of the maintenance loop: the new state, whether the shutdown signal is sent, which ends the
-- loop. `armed` is whether there is a signal to send.
unfoldable pub maintenance_tick :
    VldbControllerRuntime
    → Clock
    → (ℕ → Bool)
    → (ℕ → Option ℕ)
    → Bool
    → ControllerState
    → Bool × ControllerState
unfolding reap_expired_clients reap_stale_query_streams should_shutdown
maintenance_tick runtime clock is_complete completed_at armed state = finish armed
  where
    reaped : ControllerState
    reaped =
        (reap_stale_query_streams is_complete completed_at clock.called_unix_ms
          (reap_expired_clients clock.begun_unix_ms state).1).1

    asked : Result Bool × ControllerState
    asked = should_shutdown runtime clock.now clock.called_unix_ms reaped

    is_yes : Result Bool → Bool
    is_yes (ok answer) = answer
    is_yes _ = false

    finish : Bool → Bool × ControllerState
    finish true = (is_yes asked.0, asked.1)
    finish false = (false, reaped)
