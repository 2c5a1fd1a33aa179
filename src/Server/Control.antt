-- ===== src/Server/Control.antt =====
-- controller/src/server.rs: what the handlers of the control plane and the maintenance loop do to the
-- registry.
use vldb_controller.Base.{
  ℕ, String, Option, none, some, Bool, true, false, ◌≡◌, refl, ◌⊎◌, inl, inr,
}
use vldb_controller.Types.{SpaceKind}
use vldb_controller.Runtime.Fault.{sqlite, lancedb, Result}
use vldb_controller.Runtime.State.{ControllerState, VldbControllerRuntime}
use vldb_controller.Runtime.Backends.{
  SqliteOpenOptions, DatabaseRuntimeConfig, LanceDbEngineOptions,
}
use vldb_controller.Runtime.Sessions.{
  begin_request_with_activity, begin_request, begin_diagnostic_request, end_request,
  register_client, renew_client, unregister_client, list_clients,
}
use vldb_controller.Runtime.Spaces.{attach_space, detach_space}
use vldb_controller.Runtime.Listing.{list_spaces}
use vldb_controller.Runtime.Shutdown.{status_snapshot}
use vldb_controller.Runtime.Enable.{enable_sqlite, enable_lancedb, disable_sqlite, disable_lancedb}
use vldb_controller.Wire.Messages.{
  RegisterClientRequest, RenewClientLeaseRequest, AttachSpaceRequest, DetachSpaceRequest,
  EnableSqliteRequest, EnableLanceDbRequest, DisableBackendRequest,
}
use vldb_controller.Server.Status.{optional_client_session_id, zero_as_none}
use vldb_controller.Server.Convert.{
  map_proto_space_kind, registration_of, sqlite_request_of, lancedb_request_of,
}
use vldb_controller.Server.Handlers.{
  Clock, Handler, answering, with_request, with_diagnostic_request, get_status,
  register_client_handler, renew_client_lease, unregister_client_handler, list_clients_handler,
  list_spaces_handler, attach_space_handler, detach_space_handler, enable_sqlite_handler,
  disable_sqlite_handler, enable_lance_db_handler, disable_lance_db_handler, listing, attach_known,
}
use vldb_controller.Registry.Prune.{registered}
use vldb_controller.Registry.Methods.{pruned}
use vldb_controller.Registry.Steps.{Step}

-- The requests of the control plane.
pub data Call : Type 0 where
  status : Call
  register : String → RegisterClientRequest → Call
  renew : RenewClientLeaseRequest → Call
  unregister : String → Call
  clients : String → Call
  spaces : String → Call
  attach : AttachSpaceRequest → Call
  detach : DetachSpaceRequest → Call
  enable_sqlite_call : (SqliteOpenOptions → String → Result ℕ) → EnableSqliteRequest → Call
  disable_sqlite_call : DisableBackendRequest → Call
  enable_lancedb_call :
      (DatabaseRuntimeConfig → LanceDbEngineOptions → Result ℕ) → EnableLanceDbRequest → Call
  disable_lancedb_call : DisableBackendRequest → Call

-- What a request does to the registry between its beginning and its end: the session it names when it begins,
-- whether it counts as activity, and the method of the runtime.
pub record Work : Type 0 where
  pub caller : Option String
  pub activity : Bool
  pub op : ControllerState → ControllerState

abbrev attach_work :
    Option SpaceKind
    → (SpaceKind → ControllerState → ControllerState)
    → ControllerState
    → ControllerState
attach_work none op s = s
attach_work (some kind) op s = op kind s

abbrev listing_work : Option String → (String → ControllerState → ControllerState) → Option Work
listing_work none op = none
listing_work (some id) op = some (record { caller = none; activity = false; op = op id })

module _ (runtime : VldbControllerRuntime) (clock : Clock) where
  -- The registry after a request.
  unfoldable pub serve : Call → ControllerState → ControllerState
  serve status s = (get_status runtime clock s).1
  serve (register sid req) s = (register_client_handler runtime clock sid req s).1
  serve (renew req) s = (renew_client_lease runtime clock req s).1
  serve (unregister id) s = (unregister_client_handler runtime clock id s).1
  serve (clients id) s = (list_clients_handler runtime clock id s).1
  serve (spaces id) s = (list_spaces_handler runtime clock id s).1
  serve (attach req) s = (attach_space_handler runtime clock req s).1
  serve (detach req) s = (detach_space_handler runtime clock req s).1
  serve (enable_sqlite_call make req) s = (enable_sqlite_handler runtime clock make req s).1
  serve (disable_sqlite_call req) s = (disable_sqlite_handler runtime clock req s).1
  serve (enable_lancedb_call make req) s = (enable_lance_db_handler runtime clock make req s).1
  serve (disable_lancedb_call req) s = (disable_lance_db_handler runtime clock req s).1

  -- A new session has an identifier that no client in the registry has.
  abbrev pub IsFresh : Call → ControllerState → Type 0
  IsFresh (register sid req) s =
      registered sid
        (pruned clock.called_unix_ms (begin_request runtime clock.now clock.begun_unix_ms none s))
      ≡ false
  IsFresh _ s = Unit

  -- The method that each request calls, with the arguments that its message holds; none if the request is refused
  -- before it begins, and no method if an attachment names no kind of space.
  unfoldable pub work_of : Call → Option Work
  work_of status = some (record {
    caller = none;
    activity = false;
    op = λ s. (status_snapshot runtime clock.now clock.called_unix_ms s).1;
  })
  work_of (register sid req) = some (record {
    caller = none;
    activity = true;
    op = λ s. (register_client runtime clock.called_unix_ms sid (registration_of req) s).1;
  })
  work_of (renew req) = some (record {
    caller = some req.client_session_id;
    activity = true;
    op = λ s.
        (renew_client runtime clock.called_unix_ms req.client_session_id
          (zero_as_none req.lease_ttl_secs) s).1;
  })
  work_of (unregister id) = some (record {
    caller = some id;
    activity = true;
    op = λ s. (unregister_client clock.called_unix_ms id s).1;
  })
  work_of (clients id) =
      listing_work (optional_client_session_id id)
        (λ c s. (list_clients clock.called_unix_ms (some c) s).1)
  work_of (spaces id) =
      listing_work (optional_client_session_id id)
        (λ c s. (list_spaces clock.called_unix_ms (some c) s).1)
  work_of (attach req) = some (record {
    caller = optional_client_session_id req.client_session_id;
    activity = true;
    op = attach_work (map_proto_space_kind req.space_kind) (λ kind s.
        (attach_space clock.called_unix_ms
          (record {
            space_id = req.space_id;
            space_label = req.space_label;
            space_kind = kind;
            space_root = req.space_root;
          })
          (optional_client_session_id req.client_session_id) s).1);
  })
  work_of (detach req) = some (record {
    caller = optional_client_session_id req.client_session_id;
    activity = true;
    op = λ s.
        (detach_space clock.called_unix_ms req.space_id
          (optional_client_session_id req.client_session_id) s).1;
  })
  work_of (enable_sqlite_call make req) = some (record {
    caller = optional_client_session_id req.client_session_id;
    activity = true;
    op = λ s.
        (enable_sqlite make (sqlite_request_of req)
          (optional_client_session_id req.client_session_id) s).1;
  })
  work_of (disable_sqlite_call req) = some (record {
    caller = optional_client_session_id req.client_session_id;
    activity = true;
    op = λ s.
        (disable_sqlite req.space_id req.binding_id
          (optional_client_session_id req.client_session_id) s).1;
  })
  work_of (enable_lancedb_call make req) = some (record {
    caller = optional_client_session_id req.client_session_id;
    activity = true;
    op = λ s.
        (enable_lancedb make (lancedb_request_of req)
          (optional_client_session_id req.client_session_id) s).1;
  })
  work_of (disable_lancedb_call req) = some (record {
    caller = optional_client_session_id req.client_session_id;
    activity = true;
    op = λ s.
        (disable_lancedb req.space_id req.binding_id
          (optional_client_session_id req.client_session_id) s).1;
  })

  abbrev pub begun : Work → ControllerState → ControllerState
  begun work s =
      begin_request_with_activity runtime clock.now clock.begun_unix_ms work.caller work.activity s

  -- The registry is as it was, or it is the one after the beginning of the request, then the method, which is one
  -- step of the registry or nothing, and then the end of the request.
  abbrev pub IsRequest : Option Work → ControllerState → ControllerState → Type 0
  IsRequest none s t = t ≡ s
  IsRequest (some work) s t =
      (Step runtime (begun work s) (work.op (begun work s))
        ⊎ (work.op (begun work s) ≡ begun work s))
      × (t ≡ end_request (work.op (begun work s)))

  listed :
      {B : Type 0} (name : String) (client_id : Option String) (answer : String → Handler B)
      (op : String → ControllerState → ControllerState) (s : ControllerState)
      → ((id : String)
          → IsRequest
              (some (record { caller = none; activity = false; op = op id }))
              s
              (with_diagnostic_request runtime clock (answer id) s).1)
      → IsRequest (listing_work client_id op) s (listing runtime clock name client_id answer s).1
  listed name none answer op s h = refl
  listed name (some id) answer op s h = h id

  attached :
      (kind : Option SpaceKind) (client_id : Option String) (req : AttachSpaceRequest)
      (s : ControllerState)
      → IsRequest
          (some (record {
            caller = client_id;
            activity = true;
            op = attach_work kind (λ kind s.
                (attach_space clock.called_unix_ms
                  (record {
                    space_id = req.space_id;
                    space_label = req.space_label;
                    space_kind = kind;
                    space_root = req.space_root;
                  })
                  (optional_client_session_id req.client_session_id)
                  s).1);
          }))
          s
          (with_request runtime clock client_id (attach_known runtime clock kind req) s).1
  unfolding answering with_request begin_request
  attached none client_id req s = (inr refl, refl)
  attached (some kind) client_id req s = (
    inl (Step.attach _ clock.called_unix_ms _ (optional_client_session_id req.client_session_id)),
    refl,
  )

  -- Every request of the control plane, granted or refused, does to the registry exactly this: it begins, renewing
  -- the session that it names and counting as activity unless it is diagnostic; it calls the one method of its
  -- kind with the arguments of its message, which is a step of the registry; and it ends. A listing that names no
  -- session changes nothing. A new session must have a fresh identifier.
  pub serve-IsRequest :
      (call : Call) (s : ControllerState)
      → IsFresh call s
      → IsRequest (work_of call) s (serve call s)
  unfolding serve work_of get_status register_client_handler renew_client_lease
      unregister_client_handler list_clients_handler list_spaces_handler attach_space_handler
      detach_space_handler enable_sqlite_handler disable_sqlite_handler enable_lance_db_handler
      disable_lance_db_handler answering enable_sqlite enable_lancedb disable_sqlite disable_lancedb
      with_request with_diagnostic_request begin_request begin_diagnostic_request
  serve-IsRequest status s f = (inl (Step.status _ clock.now clock.called_unix_ms), refl)
  serve-IsRequest (register sid req) s f =
      (inl (Step.register _ clock.called_unix_ms sid (registration_of req) f), refl)
  serve-IsRequest (renew req) s f = (
    inl (Step.renew _ clock.called_unix_ms req.client_session_id (zero_as_none req.lease_ttl_secs)),
    refl,
  )
  serve-IsRequest (unregister id) s f = (inl (Step.unregister _ clock.called_unix_ms id), refl)
  serve-IsRequest (clients id) s f =
      listed "list_clients" (optional_client_session_id id) _ _ s
        (λ c. (inl (Step.clients _ clock.called_unix_ms (some c)), refl))
  serve-IsRequest (spaces id) s f =
      listed "list_spaces" (optional_client_session_id id) _ _ s
        (λ c. (inl (Step.spaces _ clock.called_unix_ms (some c)), refl))
  serve-IsRequest (attach req) s f =
      attached (map_proto_space_kind req.space_kind)
        (optional_client_session_id req.client_session_id) req s
  serve-IsRequest (detach req) s f = (
    inl (
        Step.detach _ clock.called_unix_ms req.space_id
          (optional_client_session_id req.client_session_id)),
    refl,
  )
  serve-IsRequest (enable_sqlite_call make req) s f = (inl (Step.enable _ sqlite _ _ _), refl)
  serve-IsRequest (disable_sqlite_call req) s f = (
    inl (
        Step.disable _ sqlite req.space_id req.binding_id
          (optional_client_session_id req.client_session_id)),
    refl,
  )
  serve-IsRequest (enable_lancedb_call make req) s f = (inl (Step.enable _ lancedb _ _ _), refl)
  serve-IsRequest (disable_lancedb_call req) s f = (
    inl (
        Step.disable _ lancedb req.space_id req.binding_id
          (optional_client_session_id req.client_session_id)),
    refl,
  )
