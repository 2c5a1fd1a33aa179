-- ===== src/Registry/Attachments.antt =====
-- controller/src/core/runtime.rs: `attach_space` and `detach_space` as a whole keep the registry
-- consistent.
use vldb_controller.Base.{
  ℕ, String, Option, none, some, true, ◌≡◌, refl, is_some, ◌≢◌, inl, inr, Bool-cases, Option-cases,
  arith,
}
use vldb_controller.Base.Order.{str_ord, nat_ord, eqb_refl, eqb→eq}
use vldb_controller.BTreeMap
use vldb_controller.Types.{SpaceRegistration, SpaceKind, root, user, project}
use vldb_controller.Runtime.Fault.{BackendKind, Result, ok, err, panic}
use vldb_controller.Runtime.Key.{BindingKey}
use vldb_controller.Registry.Views.{binding_at, attached_by_space}
use vldb_controller.Runtime.State.{SpaceState, ControllerState}
use vldb_controller.Runtime.Keys.{normalize_client_id}
use vldb_controller.Runtime.Validate.{
  validate_space_registration, same_space_kind, ensure_matching_space_registration,
}
use vldb_controller.Runtime.Spaces.{
  attach_target, attach_space, detach_space, detach_named, named, detach_client, new_space,
  insert_space, attach_to, detach_then,
}
use vldb_controller.Registry.Invariant.{IsConsistent}
use vldb_controller.Registry.Methods.{pruned, pruned-IsConsistent}
use vldb_controller.Registry.Attach.{
  binding_at-added, attached-added, added-IsConsistent, link-IsConsistent,
}
use vldb_controller.Registry.Detach.{detach_client-IsConsistent, remove_if_idle-IsConsistent}

-- What the guards of `attach_space` have shown, and the state that they leave.
pub record IsTarget (registration : SpaceRegistration) (client_id : Option String)
    (state : ControllerState) (client : String) (target : ControllerState) : Type 0 where
  pub caller : normalize_client_id client_id ≡ some client
  pub session : is_some (BTreeMap.get client target.clients) ≡ true
  pub there : is_some (BTreeMap.get registration.space_id target.spaces) ≡ true
  pub consistent : IsConsistent target
  pub sessions : target.clients ≡ state.clients
  pub bindings : (k : BackendKind) (j : BindingKey) → binding_at k j target ≡ binding_at k j state
  pub attachments : (c s : String) → attached_by_space c s target ≡ attached_by_space c s state
  pub matching :
      (space : SpaceState) × (BTreeMap.get registration.space_id target.spaces ≡ some space)
      × (space.registration ≡ registration)

same_space_kind-eq : (a b : SpaceKind) → same_space_kind a b ≡ true → a ≡ b
same_space_kind-eq root root h = refl
same_space_kind-eq user user h = refl
same_space_kind-eq project project h = refl
same_space_kind-eq root user h = absurd cc
same_space_kind-eq root project h = absurd cc
same_space_kind-eq user root h = absurd cc
same_space_kind-eq user project h = absurd cc
same_space_kind-eq project root h = absurd cc
same_space_kind-eq project user h = absurd cc

-- A registration that matches the one of the space is the same.
ensure_matching-eq :
    (existing incoming : SpaceRegistration)
    → ensure_matching_space_registration existing incoming ≡ ok tt
    → existing ≡ incoming
unfolding ensure_matching_space_registration
ensure_matching-eq existing incoming e =
    let a : existing.space_id ≡ incoming.space_id = eqb→eq _ _ (ground arith) in
    let b : existing.space_label ≡ incoming.space_label = eqb→eq _ _ (ground arith) in
    let c : existing.space_kind ≡ incoming.space_kind = same_space_kind-eq _ _ (ground arith) in
    let d : existing.space_root ≡ incoming.space_root = eqb→eq _ _ (ground arith) in cc (a, b, c, d)

module _ (registration : SpaceRegistration) (client_id : Option String) (state : ControllerState)
    (h : IsConsistent state) where
  no_caller :
      normalize_client_id client_id ≡ none
      → (r : String × ControllerState) → attach_target registration client_id state ≢ ok r
  unfolding attach_target
  no_caller n r e = ground arith

  module _ (client : String) (target : ControllerState) (c : String)
      (n : normalize_client_id client_id ≡ some c)
      (e : attach_target registration client_id state ≡ ok (client, target)) where
    target_session : (c ≡ client) × (is_some (BTreeMap.get c state.clients) ≡ true)
    unfolding attach_target BTreeMap.contains_key
    target_session = ground arith

    target_new :
        BTreeMap.get registration.space_id state.spaces ≡ none
        → insert_space registration.space_id (new_space registration) state ≡ target
    unfolding attach_target
    target_new a = ground arith

    target_old :
        (space : SpaceState)
        → BTreeMap.get registration.space_id state.spaces ≡ some space
        → state ≡ target
    unfolding attach_target
    target_old space a = ground arith

    target_matches :
        (space : SpaceState)
        → BTreeMap.get registration.space_id state.spaces ≡ some space
        → space.registration ≡ registration
    unfolding attach_target
    target_matches space a = ensure_matching-eq space.registration registration (ground arith)

    new_there :
        is_some (
          BTreeMap.get registration.space_id
            (insert_space registration.space_id (new_space registration) state).spaces)
        ≡ true
    new_there = rw (
      BTreeMap.get-insert registration.space_id registration.space_id (new_space registration)
          state.spaces,
      eqb_refl registration.space_id,
    )

  pub attach_target-IsTarget :
      (client : String) (target : ControllerState)
      → attach_target registration client_id state ≡ ok (client, target)
      → IsTarget registration client_id state client target
  attach_target-IsTarget client target e = elim (Option-cases (normalize_client_id client_id)) [
    | inl n ↦ absurd (no_caller n (client, target) e)
    | inr (c, n) ↦
        let (same, session) = target_session client target c n e in
        elim (Option-cases (BTreeMap.get registration.space_id state.spaces)) [
          | inl a ↦
              rw (← target_new client target c n e a, ← same)
                (record {
                  caller = n;
                  session = session;
                  there = new_there client target c n e;
                  consistent = added-IsConsistent registration state a h;
                  sessions = refl;
                  bindings = binding_at-added registration state a;
                  attachments = attached-added registration state a;
                  matching = (
                    new_space registration,
                    rw
                        (
                          BTreeMap.get-insert registration.space_id registration.space_id
                              (new_space registration) state.spaces,
                          eqb_refl registration.space_id,
                        )
                        refl,
                    refl,
                  );
                })
          | inr (space, a) ↦
              rw (← target_old client target c n e space a, ← same)
                (record {
                  caller = n;
                  session = session;
                  there = rw a refl;
                  consistent = h;
                  sessions = refl;
                  bindings = λ k j. refl;
                  attachments = λ c s. refl;
                  matching = (space, a, target_matches client target c n e space a);
                })
        ]
  ]

module _ (state : ControllerState) (h : IsConsistent state) (now : ℕ) where
  pub attach-IsConsistent :
      (registration : SpaceRegistration) (client_id : Option String)
      → IsConsistent (attach_space now registration client_id state).1
  unfolding attach_space
  attach-IsConsistent registration client_id = go (validate_space_registration registration) refl
    where
      target :
          (r : Result (String × ControllerState))
          → attach_target registration client_id (pruned now state) ≡ r
          → IsConsistent (attach_to registration.space_id (pruned now state) r).1
      target (ok (client, mid)) e =
          let t =
            attach_target-IsTarget registration client_id (pruned now state)
              (pruned-IsConsistent state h now) client mid e in
          link-IsConsistent client registration.space_id mid t.session t.there t.consistent
      target (err x) e = pruned-IsConsistent state h now
      target (panic x) e = pruned-IsConsistent state h now

      go :
          (r : Result (Unit {0}))
          → validate_space_registration registration ≡ r
          → IsConsistent (attach_space now registration client_id state).1
      go (ok u) e = rw (e, attach_space) (target _ refl)
      go (err x) e = rw (e, attach_space) h
      go (panic x) e = rw (e, attach_space) h

  pub detach-IsConsistent :
      (space_id : String) (client_id : Option String)
      → IsConsistent (detach_space now space_id client_id state).1
  unfolding detach_space
  detach-IsConsistent space_id client_id =
      elim (Bool-cases (BTreeMap.contains_key space_id (pruned now state).spaces)) [
        | inl e ↦ rw (e, detach_space) (leave (named client_id))
        | inr e ↦ rw (e, detach_space) (pruned-IsConsistent state h now)
      ]
    where
      done :
          (r : Result ControllerState)
          → ((after : ControllerState) → r ≡ ok after → IsConsistent after)
          → IsConsistent (detach_then space_id client_id (pruned now state) r).1
      done (ok after) k = remove_if_idle-IsConsistent "" space_id after client_id (k after refl)
      done (err x) k = pruned-IsConsistent state h now
      done (panic x) k = pruned-IsConsistent state h now

      leave :
          (caller : Option String)
          → IsConsistent
              (detach_then space_id client_id
                (pruned now state)
                (detach_named space_id caller (pruned now state))).1
      leave none =
          remove_if_idle-IsConsistent "" space_id (pruned now state) client_id
            (pruned-IsConsistent state h now)
      leave (some client) = done (detach_client space_id client (pruned now state)) λ after e.
          detach_client-IsConsistent client space_id (pruned now state) after e
            (pruned-IsConsistent state h now)
