-- ===== src/Client/Recovered.antt =====
-- client/src/client.rs: what `ensure_registered_session` guarantees.
use vldb_controller.Base.{
  String, Option, none, some, Bool, true, false, not, if◌then◌else◌, List, [], ◌∷◌, ◌++◌, map, ◌≡◌,
  refl, ◌⊎◌, inl, inr, subst, unwrap_or,
}
use vldb_controller.Base.Order.{str_ord}
use vldb_controller.Base.Except.{Except, success, failure}
use vldb_controller.BTreeMap
use vldb_controller.Types.{ClientRegistration}
use vldb_controller.Wire.Messages.{ProtoClientLeaseSnapshot}
use vldb_controller.Runtime.Key.{key_ord}
use vldb_controller.Server.Status.{Status}
use vldb_controller.Client.State.{
  ClientSessionState, store_client_session_id, clear_client_session_id, mark_session_replay_pending,
  mark_session_replay_complete,
}
use vldb_controller.Client.Calls.{
  Rpc, Answer, ClientError, failed, attach_space, enable_sqlite, enable_lance_db, attach_request,
  enable_sqlite_request, enable_lance_db_request, register_client, register_request,
  renew_client_lease, map_client_snapshot, is_missing_client_session_status,
}
use vldb_controller.Client.Recovery.{
  Outcome, after_success, acknowledged, send, send_each, send_desired, finish_replay, read_snapshot,
  replay, register, adopt, renewed, renew_or_register, ensure_registered_session,
}

-- The desired spaces and bindings are the same.
abbrev pub SameDesired : ClientSessionState → ClientSessionState → Type 0
SameDesired a b =
    (a.attached_spaces ≡ b.attached_spaces)
    × (a.sqlite_bindings ≡ b.sqlite_bindings)
    × (a.lancedb_bindings ≡ b.lancedb_bindings)

-- The calls that put the desired state in place for a session: the spaces before the bindings in them.
abbrev pub desired_calls : String → ClientSessionState → List Rpc
desired_calls client_session_id state =
    (map (λ registration. attach_space (attach_request client_session_id registration))
        (BTreeMap.values state.attached_spaces)
      ++ map (λ request. enable_sqlite (enable_sqlite_request client_session_id request))
          (BTreeMap.values state.sqlite_bindings))
    ++ map (λ request. enable_lance_db (enable_lance_db_request client_session_id request))
        (BTreeMap.values state.lancedb_bindings)

module _ {S : Type 0} (call : (rpc : Rpc) → S → Except Status (Answer rpc) × S) where
  -- The controller accepts the calls, one after another, and goes from one state to the other.
  pub data Accepted : List Rpc → S → S → Type 0 where
    done : (s : S) → Accepted [] s s
    accept :
        (rpc : Rpc) (rest : List Rpc) (s t u : S) (answer : Answer rpc)
        → call rpc s ≡ (success answer, t)
        → Accepted rest t u
        → Accepted (rpc ∷ rest) s u

  Accepted-append :
      (rs qs : List Rpc) (s t u : S) → Accepted rs s t → Accepted qs t u → Accepted (rs ++ qs) s u
  Accepted-append _ qs s _ u (done _) k = k
  Accepted-append _ qs s t u (accept rpc rest _ m _ answer e h) k =
      accept rpc (rest ++ qs) s m u answer e (Accepted-append rest qs m t u h k)

  -- What a run of calls has done if it succeeds.
  abbrev IsRun : List Rpc → S → Except ClientError (Unit {0}) × S → Type 0
  IsRun rs s (success _, t) = Accepted rs s t
  IsRun rs s (failure e, t) = Unit

  IsRun-after_success :
      (rs qs : List Rpc) (s : S) (r : Except ClientError (Unit {0}) × S)
      (next : S → Except ClientError (Unit {0}) × S)
      → IsRun rs s r
      → ((t : S) → IsRun qs t (next t))
      → IsRun (rs ++ qs) s (after_success r next)
  IsRun-after_success rs qs s (failure e, t) next h k = tt
  IsRun-after_success rs qs s (success x, t) next h k = go (next t) (k t)
    where
      go : (r : Except ClientError (Unit {0}) × S) → IsRun qs t r → IsRun (rs ++ qs) s r
      go (success y, u) m = Accepted-append rs qs s t u h m
      go (failure e, u) m = tt

  send-IsRun : (rpc : Rpc) (s : S) → IsRun (rpc ∷ []) s (send call rpc s)
  unfolding send
  send-IsRun rpc s = go (call rpc s) refl
    where
      go :
          (r : Except Status (Answer rpc) × S)
          → call rpc s ≡ r
          → IsRun (rpc ∷ []) s (acknowledged r.0, r.1)
      go (success answer, t) e = accept rpc [] s t t answer e (done t)
      go (failure status, t) e = tt

  send_each-IsRun {ℓ} :
      {A : Type ℓ} (rpc_of : A → Rpc) (xs : List A) (s : S)
      → IsRun (map rpc_of xs) s (send_each call rpc_of xs s)
  unfolding send_each
  send_each-IsRun rpc_of [] s = done s
  send_each-IsRun rpc_of (x ∷ xs) s =
      IsRun-after_success (rpc_of x ∷ []) (map rpc_of xs) s (send call (rpc_of x) s)
        (send_each call rpc_of xs) (send-IsRun (rpc_of x) s) (send_each-IsRun rpc_of xs)

  send_desired-IsRun :
      (session : String) (state : ClientSessionState) (s : S)
      → IsRun (desired_calls session state) s (send_desired call session state s)
  unfolding send_desired
  send_desired-IsRun session state s =
      IsRun-after_success _ _ s _ _
        (IsRun-after_success _ _ s _ _
          (send_each-IsRun (λ registration. attach_space (attach_request session registration))
            (BTreeMap.values state.attached_spaces) s)
          (send_each-IsRun (λ request. enable_sqlite (enable_sqlite_request session request))
            (BTreeMap.values state.sqlite_bindings)))
        (send_each-IsRun (λ request. enable_lance_db (enable_lance_db_request session request))
          (BTreeMap.values state.lancedb_bindings))

  desired_calls-same :
      (session : String) (a b : ClientSessionState)
      → SameDesired a b
      → desired_calls session a ≡ desired_calls session b
  desired_calls-same session a b (e, f, g) = cc (e, f, g)

  module _ (registration : ClientRegistration) where
    -- The renewal of the lease of a session.
    abbrev pub renewal : String → Rpc
    renewal session = renew_client_lease (record {
      client_session_id = session;
      lease_ttl_secs = unwrap_or registration.lease_ttl_secs 0;
    })

    -- Why the client registers: it has no session, or the controller answers to the renewal that it has not.
    abbrev pub MustRegister : ClientSessionState → S → S → Type 0
    MustRegister before s u =
        ((before.client_session_id ≡ none) × (u ≡ s))
        ⊎ ((old : String) × (status : Status) × (before.client_session_id ≡ some old)
            × (call (renewal old) s ≡ (failure status, u))
            × (is_missing_client_session_status status ≡ true))

    -- All calls of a recovery that succeeds, from the controller's state `s` to `t`.
    pub data Recovery (before : ClientSessionState) (session : String) (s t : S) : Type 0 where
      -- The session was in place, and its renewal is the only call.
      kept :
          before.client_session_id ≡ some session
          → before.session_needs_replay ≡ false
          → Accepted (renewal session ∷ []) s t
          → Recovery before session s t
      -- The session was there, and the desired state had not reached the controller.
      replayed :
          before.client_session_id ≡ some session
          → before.session_needs_replay ≡ true
          → Accepted (renewal session ∷ desired_calls session before) s t
          → Recovery before session s t
      -- The session is the one that the controller gives to the registration.
      registered :
          (u v : S) (snapshot : ProtoClientLeaseSnapshot)
          → MustRegister before s u
          → call (register_client (register_request registration)) u ≡ (success (some snapshot), v)
          → (map_client_snapshot snapshot).client_session_id ≡ session
          → Accepted (desired_calls session before) v t
          → Recovery before session s t

    -- The session is there, nothing desired is lost, and the controller has accepted the calls of a recovery.
    pub record IsRecovered (before after : ClientSessionState) (s t : S) : Type 0 where
      pub session : String
      pub has : after.client_session_id ≡ some session
      pub settled : after.session_needs_replay ≡ false
      pub desired : SameDesired after before
      pub recovery : Recovery before session s t

    -- Nothing desired is lost, and the next call starts where this one stopped: the state is as it was, or there
    -- is no session, or its replay is still to be done.
    abbrev pub IsInterrupted : ClientSessionState → ClientSessionState → Type 0
    IsInterrupted before after =
        SameDesired after before
        × ((after ≡ before)
            ⊎ ((after.client_session_id ≡ none) ⊎ (after.session_needs_replay ≡ true)))

    abbrev pub IsEnsured : ClientSessionState → S → Outcome S (Unit {0}) → Type 0
    IsEnsured before s (success _, (after, t)) = IsRecovered before after s t
    IsEnsured before s (failure e, (after, t)) = IsInterrupted before after

    replay-IsEnsured :
        (session : String) (before state : ClientSessionState) (s u : S)
        → state.client_session_id ≡ some session
        → state.session_needs_replay ≡ true
        → SameDesired state before
        → ((t : S) → Accepted (desired_calls session before) u t → Recovery before session s t)
        → IsEnsured before s (replay call session state u)
    unfolding replay mark_session_replay_complete
    replay-IsEnsured session before state s u e f same path =
        go (send_desired call session state u) (send_desired-IsRun session state u)
      where
        go :
            (r : Except ClientError (Unit {0}) × S)
            → IsRun (desired_calls session state) u r
            → IsEnsured before s (finish_replay call state r)
        go (success x, t) h = record {
          session = session;
          has = e;
          settled = refl;
          desired = same;
          recovery =
              path t
                (subst (λ rs. Accepted rs u t) (desired_calls-same session state before same) h);
        }
        go (failure x, t) h = (same, inr (inr f))

    adopt-IsEnsured :
        (before state : ClientSessionState) (s u : S)
        → state.client_session_id ≡ none
        → SameDesired state before
        → MustRegister before s u
        → IsEnsured before s (adopt call registration state (register call registration u))
    unfolding mark_session_replay_pending store_client_session_id register
    adopt-IsEnsured before state s u e same must =
        go (call (register_client (register_request registration)) u) refl
      where
        go :
            (r : Except Status (Option ProtoClientLeaseSnapshot) × S)
            → call (register_client (register_request registration)) u ≡ r
            → IsEnsured before s (adopt call registration state (read_snapshot r.0, r.1))
        go (success (some snapshot), v) f =
            replay-IsEnsured (map_client_snapshot snapshot).client_session_id before
              (mark_session_replay_pending
                (store_client_session_id (map_client_snapshot snapshot).client_session_id state))
              s v refl refl same (λ t h. registered u v snapshot must f refl h)
        go (success none, v) f = (same, inr (inl e))
        go (failure x, v) f = (same, inr (inl e))

    renewed-IsEnsured :
        (session : String) (before : ClientSessionState) (s : S)
        → before.client_session_id ≡ some session
        → IsEnsured before s (renewed call registration session before (call (renewal session) s))
    unfolding clear_client_session_id
    renewed-IsEnsured session before s e = answered (call (renewal session) s) refl
      where
        in_place :
            (u : Unit {0}) (t : S) (b : Bool)
            → call (renewal session) s ≡ (success u, t)
            → before.session_needs_replay ≡ b
            → IsEnsured before s
                (if not b then (success tt, (before, t)) else replay call session before t)
        in_place u t true c f =
            replay-IsEnsured session before before s t e f (refl, refl, refl)
              (λ v h. replayed e f (accept (renewal session) _ s t v u c h))
        in_place u t false c f = record {
          session = session;
          has = e;
          settled = f;
          desired = (refl, refl, refl);
          recovery = kept e f (accept (renewal session) [] s t t u c (done t));
        }

        refused :
            (status : Status) (t : S) (b : Bool)
            → call (renewal session) s ≡ (failure status, t)
            → is_missing_client_session_status status ≡ b
            → IsEnsured before s (
                if b
                then adopt call registration
                    (clear_client_session_id before)
                    (register call registration t)
                else (failure (failed status), (before, t)))
        refused status t true c m =
            adopt-IsEnsured before (clear_client_session_id before) s t refl (refl, refl, refl)
              (inr (session, status, e, c, m))
        refused status t false c m = ((refl, refl, refl), inl refl)

        answered :
            (r : Except Status (Unit {0}) × S)
            → call (renewal session) s ≡ r
            → IsEnsured before s (renewed call registration session before r)
        answered (success u, t) c = in_place u t before.session_needs_replay c refl
        answered (failure status, t) c =
            refused status t (is_missing_client_session_status status) c refl

    -- When the client has ensured its session, the session is there with no replay to be done, and the controller
    -- has accepted exactly these calls, in this order: the renewal of the lease, if the session was in place; the
    -- renewal and then every desired space and every desired binding, if a replay was to be done; or, if there
    -- was no session or the renewal was refused because the controller has none, the registration that gives the
    -- session, and then every desired space and every desired binding for it. When this fails, the desired
    -- state is kept, and the client has no session, or a session that is still to be replayed, or the state
    -- that it had. The controller may answer in any way.
    pub ensure-IsEnsured :
        (before : ClientSessionState) (s : S)
        → IsEnsured before s (ensure_registered_session call registration before s)
    unfolding ensure_registered_session
    ensure-IsEnsured before s = go before.client_session_id refl
      where
        go :
            (o : Option String)
            → before.client_session_id ≡ o
            → IsEnsured before s (renew_or_register call registration o before s)
        go none e = adopt-IsEnsured before before s s e (refl, refl, refl) (inl (e, refl))
        go (some session) e = renewed-IsEnsured session before s e
