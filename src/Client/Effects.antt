-- ===== src/Client/Effects.antt =====
-- client/src/client.rs: what one call of an operation does to the desired state.
use vldb_controller.Base.{String, Option, none, some, Bool, true, false, refl, ◌∙◌, ◌≡◌, inl, inr}
use vldb_controller.Base.Except.{Except, success, failure}
use vldb_controller.Base.Order.{str_ord}
use vldb_controller.Types.{
  ClientRegistration, SpaceRegistration, SpaceSnapshot, ControllerSqliteEnableRequest,
  ControllerLanceDbEnableRequest,
}
use vldb_controller.Runtime.Key.{key_ord}
use vldb_controller.Wire.Messages.{ProtoSpaceSnapshot}
use vldb_controller.Server.Status.{Status}
use vldb_controller.Client.State.{ClientSessionState, remember_attached_space}
use vldb_controller.Client.Calls
use vldb_controller.Client.Calls.{
  Rpc, Answer, ClientError, map_space_snapshot, attach_request, enable_sqlite_request,
  enable_lance_db_request,
}
use vldb_controller.Client.Recovery.{Outcome, ensure_registered_session}
use vldb_controller.Client.Recovered.{SameDesired, IsEnsured, ensure-IsEnsured}
use vldb_controller.Client.Operations.{
  and_then, current_client_session_id, attached, read_space, forgotten, remembered, transported,
  connect_client, in_session, calling,
}
use vldb_controller.Client.Changes.{
  RemembersSpace, IsAttachEffect, ChangesIf, IsEffect, remember_space-Remembers,
}

abbrev pub desired_of : {S A : Type 0} → Outcome S A → ClientSessionState
desired_of (r, (state, s)) = state

module _ {S : Type 0} (call : (rpc : Rpc) → S → Except Status (Answer rpc) × S)
    (connect : S → Except ClientError (Unit {0}) × S) (registration : ClientRegistration) where
  ensured-desired :
      (before : ClientSessionState) (s : S) (o : Outcome S (Unit {0}))
      → IsEnsured call registration before s o
      → SameDesired (desired_of o) before
  ensured-desired before s (success u, (after, t)) h = h.desired
  ensured-desired before s (failure e, (after, t)) h = h.0

  connect-desired :
      (before : ClientSessionState) (s : S)
      → SameDesired (desired_of (connect_client call connect registration before s)) before
  unfolding connect_client
  connect-desired before s = go (connect s)
    where
      go :
          (r : Except ClientError (Unit {0}) × S)
          → SameDesired (desired_of (transported call connect registration before r)) before
      go (success u, t) =
          ensured-desired before t (ensure_registered_session call registration before t)
            (ensure-IsEnsured call registration before t)
      go (failure e, t) = (refl, refl, refl)

  current_session :
      (id : String) (state : ClientSessionState)
      → current_client_session_id state ≡ success id
      → state.client_session_id ≡ some id
  unfolding current_client_session_id
  current_session id state e = go state.client_session_id refl
    where
      go : (o : Option String) → state.client_session_id ≡ o → state.client_session_id ≡ some id
      go none f = let w = rw f at e in absurd cc
      go (some x) f = let w = rw f at e in f ∙ cc

  module _ {A : Type 0} (P : Outcome S A → Type 0) (before : ClientSessionState)
      (rpc_of : String → Rpc)
      (keep : (id : String)
        → Except Status (Answer (rpc_of id))
        → ClientSessionState
        → Except ClientError A × ClientSessionState)
      (fails : (e : ClientError) (after : ClientSessionState) (t : S)
        → SameDesired after before
        → P (failure e, (after, t)))
      (kept : (id : String) (u : S) (mid : ClientSessionState)
        → SameDesired mid before
        → mid.client_session_id ≡ some id
        → P (
          (keep id (call (rpc_of id) u).0 mid).0,
          ((keep id (call (rpc_of id) u).0 mid).1, (call (rpc_of id) u).1),
        )) where
    pub calling-by : (s : S) → P (calling call connect registration rpc_of keep before s)
    unfolding calling
    calling-by s = go (connect_client call connect registration before s) (connect-desired before s)
      where
        inside :
            (r : Except ClientError String) (after : ClientSessionState) (t : S)
            → current_client_session_id after ≡ r
            → SameDesired after before
            → P (in_session call connect registration rpc_of keep after t r)
        inside (success id) after t e h = kept id t after h (current_session id after e)
        inside (failure x) after t e h = fails x after t h

        go :
            (o : Outcome S (Unit {0}))
            → SameDesired (desired_of o) before
            → P (
                and_then o (λ u after t.
                  in_session call connect registration rpc_of keep after t
                    (current_client_session_id after)))
        go (success u, (after, t)) h = inside (current_client_session_id after) after t refl h
        go (failure e, (after, t)) h = fails e after t h

  -- The calls, each with the session, the controller's state before it, its answer, and the state after it.
  abbrev pub AttachSays : SpaceRegistration → String → S → Except String SpaceSnapshot → S → Type 0
  AttachSays space id u answer t =
      (snapshot : ProtoSpaceSnapshot) × (call (Calls.attach_space (attach_request id space)) u
        ≡ (success (some snapshot), t))
      × (map_space_snapshot snapshot ≡ answer)

  abbrev pub DetachSays : String → String → S → Bool → S → Type 0
  DetachSays space_id id u answer t =
      call (Calls.detach_space (record { client_session_id = id; space_id = space_id })) u
      ≡ (success answer, t)

  abbrev pub EnableSqliteSays : ControllerSqliteEnableRequest → String → S → Unit {0} → S → Type 0
  EnableSqliteSays request id u answer t =
      call (Calls.enable_sqlite (enable_sqlite_request id request)) u ≡ (success answer, t)

  abbrev pub DisableSqliteSays : String → String → String → S → Bool → S → Type 0
  DisableSqliteSays space_id binding_id id u answer t =
      call
        (Calls.disable_sqlite
          (record { client_session_id = id; space_id = space_id; binding_id = binding_id }))
        u
      ≡ (success answer, t)

  abbrev pub EnableLanceDbSays : ControllerLanceDbEnableRequest → String → S → Unit {0} → S → Type 0
  EnableLanceDbSays request id u answer t =
      call (Calls.enable_lance_db (enable_lance_db_request id request)) u ≡ (success answer, t)

  abbrev pub DisableLanceDbSays : String → String → String → S → Bool → S → Type 0
  DisableLanceDbSays space_id binding_id id u answer t =
      call
        (Calls.disable_lance_db
          (record { client_session_id = id; space_id = space_id; binding_id = binding_id }))
        u
      ≡ (success answer, t)

  module _ (before mid : ClientSessionState) (same : SameDesired mid before) (id : String) (u : S)
      (has : mid.client_session_id ≡ some id) where
    pub forgotten-IsEffect :
        (forget : ClientSessionState → ClientSessionState)
        (Changes : ClientSessionState → ClientSessionState → Type 0)
        (Says : String → S → Bool → S → Type 0) (answer : Except Status Bool) (t : S)
        → ((done : Bool) → answer ≡ success done → Says id u done t)
        → Changes before (forget mid)
        → (forget mid).client_session_id ≡ mid.client_session_id
        → IsEffect Says
            (λ done. ChangesIf done Changes)
            before
            ((forgotten forget answer mid).0, ((forgotten forget answer mid).1, t))
    forgotten-IsEffect forget Changes Says (success true) t said f k =
        (id, u, k ∙ has, said true refl, f)
    forgotten-IsEffect forget Changes Says (success false) t said f k =
        (id, u, has, said false refl, same)
    forgotten-IsEffect forget Changes Says (failure status) t said f k = same

    pub remembered-IsEffect :
        (remember : ClientSessionState → ClientSessionState)
        (Changes : ClientSessionState → ClientSessionState → Type 0)
        (Says : String → S → Unit {0} → S → Type 0) (answer : Except Status (Unit {0})) (t : S)
        → ((done : Unit {0}) → answer ≡ success done → Says id u done t)
        → Changes before (remember mid)
        → (remember mid).client_session_id ≡ mid.client_session_id
        → IsEffect Says
            (λ done. Changes)
            before
            ((remembered remember answer mid).0, ((remembered remember answer mid).1, t))
    remembered-IsEffect remember Changes Says (success x) t said f k =
        (id, u, k ∙ has, said tt refl, f)
    remembered-IsEffect remember Changes Says (failure status) t said f k = same

    pub attached-IsAttachEffect :
        (space : SpaceRegistration) (answer : Except Status (Option ProtoSpaceSnapshot)) (t : S)
        → call (Calls.attach_space (attach_request id space)) u ≡ (answer, t)
        → IsAttachEffect
            (AttachSays space)
            (RemembersSpace space)
            before
            ((attached space answer mid).0, ((attached space answer mid).1, t))
    unfolding remember_attached_space
    attached-IsAttachEffect space (success none) t e = inl same
    attached-IsAttachEffect space (failure status) t e = inl same
    attached-IsAttachEffect space (success (some snapshot)) t e =
        go (map_space_snapshot snapshot) refl
      where
        go :
            (r : Except String SpaceSnapshot)
            → map_space_snapshot snapshot ≡ r
            → IsAttachEffect
                (AttachSays space)
                (RemembersSpace space)
                before
                (read_space r, (remember_attached_space space mid, t))
        go (success x) f =
            (id, u, has, (snapshot, e, f), remember_space-Remembers mid before same space)
        go (failure x) f =
            inr (id, u, x, has, (snapshot, e, f), remember_space-Remembers mid before same space)
