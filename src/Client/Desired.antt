-- ===== src/Client/Desired.antt =====
-- client/src/client.rs: what the operations make of the desired state.
use vldb_controller.Base.{String, none, some, refl, ap, inl}
use vldb_controller.Base.Except.{Except}
use vldb_controller.Base.Order.{str_ord}
use vldb_controller.Types.{
  ClientRegistration, SpaceRegistration, ControllerSqliteEnableRequest,
  ControllerLanceDbEnableRequest,
}
use vldb_controller.Runtime.Key.{binding_key, key_ord}
use vldb_controller.Server.Status.{Status}
use vldb_controller.Client.State.{
  ClientSessionState, forget_attached_space, remember_sqlite_binding, forget_sqlite_binding,
  remember_lancedb_binding, forget_lancedb_binding,
}
use vldb_controller.Client.Calls
use vldb_controller.Client.Calls.{
  Rpc, Answer, ClientError, map_space_snapshot, attach_request, enable_sqlite_request,
  enable_lance_db_request,
}
use vldb_controller.Client.Operations.{
  attached, forgotten, remembered, attach_space, detach_space, enable_sqlite, disable_sqlite,
  enable_lancedb, disable_lancedb,
}
use vldb_controller.Client.Changes.{
  RemembersSpace, ForgetsSpace, SetsSqlite, SetsLanceDb, IsAttachEffect, ChangesIf, IsEffect,
  forget_space-Forgets, remember_sqlite-Sets, forget_sqlite-Sets, remember_lancedb-Sets,
  forget_lancedb-Sets,
}
use vldb_controller.Client.Effects.{
  calling-by, AttachSays, DetachSays, EnableSqliteSays, DisableSqliteSays, EnableLanceDbSays,
  DisableLanceDbSays, forgotten-IsEffect, remembered-IsEffect, attached-IsAttachEffect,
}

module _ {S : Type 0} (call : (rpc : Rpc) → S → Except Status (Answer rpc) × S)
    (connect : S → Except ClientError (Unit {0}) × S) (registration : ClientRegistration) where
  -- A successful operation is one that the controller has granted, for the client's session, in its last call, and what the client wants to
  -- have after a recovery changes by exactly that: the space that is attached is desired as it was registered; a
  -- binding that is enabled, by its key, with its request; a space that was detached is not desired any more, nor is
  -- any binding in it; nor is a binding that was disabled; an answer that there was nothing to detach or disable
  -- changes nothing. An operation that fails, at whatever point, changes nothing, unless it is an attachment that
  -- the controller has granted with a snapshot that cannot be read, and the space is remembered.
  pub operations-IsEffect :
      (before : ClientSessionState) (s : S) (space : SpaceRegistration)
      (sqlite_request : ControllerSqliteEnableRequest)
      (lancedb_request : ControllerLanceDbEnableRequest) (space_id binding_id : String)
      → IsAttachEffect
          (AttachSays call connect registration space)
          (RemembersSpace space)
          before
          (attach_space call connect registration space before s)
        × IsEffect
            (DetachSays call connect registration space_id)
            (λ done. ChangesIf done (ForgetsSpace space_id))
            before
            (detach_space call connect registration space_id before s)
        × IsEffect
            (EnableSqliteSays call connect registration sqlite_request)
            (λ done.
              SetsSqlite
                (binding_key sqlite_request.space_id sqlite_request.binding_id)
                (some sqlite_request))
            before
            (enable_sqlite call connect registration sqlite_request before s)
        × IsEffect
            (DisableSqliteSays call connect registration space_id binding_id)
            (λ done. ChangesIf done (SetsSqlite (binding_key space_id binding_id) none))
            before
            (disable_sqlite call connect registration space_id binding_id before s)
        × IsEffect
            (EnableLanceDbSays call connect registration lancedb_request)
            (λ done.
              SetsLanceDb
                (binding_key lancedb_request.space_id lancedb_request.binding_id)
                (some lancedb_request))
            before
            (enable_lancedb call connect registration lancedb_request before s)
        × IsEffect
            (DisableLanceDbSays call connect registration space_id binding_id)
            (λ done. ChangesIf done (SetsLanceDb (binding_key space_id binding_id) none))
            before
            (disable_lancedb call connect registration space_id binding_id before s)
  unfolding attach_space detach_space enable_sqlite disable_sqlite enable_lancedb disable_lancedb
      forget_attached_space remember_sqlite_binding forget_sqlite_binding remember_lancedb_binding
      forget_lancedb_binding
  operations-IsEffect before s space sqlite_request lancedb_request space_id binding_id = (
    calling-by call connect registration
        (IsAttachEffect (AttachSays call connect registration space) (RemembersSpace space) before)
        before (λ id. Calls.attach_space (attach_request id space)) (λ id. attached space)
        (λ e after t h. inl h)
        (λ id u mid h has.
          attached-IsAttachEffect call connect registration before mid h id u has space _ _ refl)
        s,
    calling-by call connect registration
        (IsEffect (DetachSays call connect registration space_id)
          (λ done. ChangesIf done (ForgetsSpace space_id)) before)
        before (λ id. Calls.detach_space (record { client_session_id = id; space_id = space_id }))
        (λ id. forgotten (forget_attached_space space_id)) (λ e after t h. h)
        (λ id u mid h has.
          forgotten-IsEffect call connect registration before mid h id u has
            (forget_attached_space space_id) (ForgetsSpace space_id)
            (DetachSays call connect registration space_id)
            (call (Calls.detach_space (record { client_session_id = id; space_id = space_id })) u).0
            (call (Calls.detach_space (record { client_session_id = id; space_id = space_id })) u).1
            (λ done e.
              ap
                (λ a. (
                  a,
                  (call
                      (Calls.detach_space (record { client_session_id = id; space_id = space_id }))
                      u).1,
                ))
                e)
            (forget_space-Forgets mid before h space_id) refl)
        s,
    calling-by call connect registration
        (IsEffect (EnableSqliteSays call connect registration sqlite_request)
          (λ done.
            SetsSqlite (binding_key sqlite_request.space_id sqlite_request.binding_id)
              (some sqlite_request))
          before)
        before (λ id. Calls.enable_sqlite (enable_sqlite_request id sqlite_request))
        (λ id. remembered (remember_sqlite_binding sqlite_request)) (λ e after t h. h)
        (λ id u mid h has.
          remembered-IsEffect call connect registration before mid h id u has
            (remember_sqlite_binding sqlite_request)
            (SetsSqlite (binding_key sqlite_request.space_id sqlite_request.binding_id)
              (some sqlite_request))
            (EnableSqliteSays call connect registration sqlite_request)
            (call (Calls.enable_sqlite (enable_sqlite_request id sqlite_request)) u).0
            (call (Calls.enable_sqlite (enable_sqlite_request id sqlite_request)) u).1
            (λ done e.
              ap
                (λ a.
                  (a, (call (Calls.enable_sqlite (enable_sqlite_request id sqlite_request)) u).1))
                e)
            (remember_sqlite-Sets mid before h sqlite_request) refl)
        s,
    calling-by call connect registration
        (IsEffect (DisableSqliteSays call connect registration space_id binding_id)
          (λ done. ChangesIf done (SetsSqlite (binding_key space_id binding_id) none)) before)
        before
        (λ id.
          Calls.disable_sqlite
            (record { client_session_id = id; space_id = space_id; binding_id = binding_id }))
        (λ id. forgotten (forget_sqlite_binding space_id binding_id)) (λ e after t h. h)
        (λ id u mid h has.
          forgotten-IsEffect call connect registration before mid h id u has
            (forget_sqlite_binding space_id binding_id)
            (SetsSqlite (binding_key space_id binding_id) none)
            (DisableSqliteSays call connect registration space_id binding_id)
            (call
              (Calls.disable_sqlite
                (record { client_session_id = id; space_id = space_id; binding_id = binding_id }))
              u).0
            (call
              (Calls.disable_sqlite
                (record { client_session_id = id; space_id = space_id; binding_id = binding_id }))
              u).1
            (λ done e.
              ap
                (λ a. (
                  a,
                  (call
                      (Calls.disable_sqlite (record {
                        client_session_id = id;
                        space_id = space_id;
                        binding_id = binding_id;
                      }))
                      u).1,
                ))
                e)
            (forget_sqlite-Sets mid before h space_id binding_id) refl)
        s,
    calling-by call connect registration
        (IsEffect (EnableLanceDbSays call connect registration lancedb_request)
          (λ done.
            SetsLanceDb (binding_key lancedb_request.space_id lancedb_request.binding_id)
              (some lancedb_request))
          before)
        before (λ id. Calls.enable_lance_db (enable_lance_db_request id lancedb_request))
        (λ id. remembered (remember_lancedb_binding lancedb_request)) (λ e after t h. h)
        (λ id u mid h has.
          remembered-IsEffect call connect registration before mid h id u has
            (remember_lancedb_binding lancedb_request)
            (SetsLanceDb (binding_key lancedb_request.space_id lancedb_request.binding_id)
              (some lancedb_request))
            (EnableLanceDbSays call connect registration lancedb_request)
            (call (Calls.enable_lance_db (enable_lance_db_request id lancedb_request)) u).0
            (call (Calls.enable_lance_db (enable_lance_db_request id lancedb_request)) u).1
            (λ done e.
              ap
                (λ a. (
                  a,
                  (call (Calls.enable_lance_db (enable_lance_db_request id lancedb_request)) u).1,
                ))
                e)
            (remember_lancedb-Sets mid before h lancedb_request) refl)
        s,
    calling-by call connect registration
        (IsEffect (DisableLanceDbSays call connect registration space_id binding_id)
          (λ done. ChangesIf done (SetsLanceDb (binding_key space_id binding_id) none)) before)
        before
        (λ id.
          Calls.disable_lance_db
            (record { client_session_id = id; space_id = space_id; binding_id = binding_id }))
        (λ id. forgotten (forget_lancedb_binding space_id binding_id)) (λ e after t h. h)
        (λ id u mid h has.
          forgotten-IsEffect call connect registration before mid h id u has
            (forget_lancedb_binding space_id binding_id)
            (SetsLanceDb (binding_key space_id binding_id) none)
            (DisableLanceDbSays call connect registration space_id binding_id)
            (call
              (Calls.disable_lance_db
                (record { client_session_id = id; space_id = space_id; binding_id = binding_id }))
              u).0
            (call
              (Calls.disable_lance_db
                (record { client_session_id = id; space_id = space_id; binding_id = binding_id }))
              u).1
            (λ done e.
              ap
                (λ a. (
                  a,
                  (call
                      (Calls.disable_lance_db (record {
                        client_session_id = id;
                        space_id = space_id;
                        binding_id = binding_id;
                      }))
                      u).1,
                ))
                e)
            (forget_lancedb-Sets mid before h space_id binding_id) refl)
        s,
  )
