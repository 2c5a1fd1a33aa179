-- ===== src/Registry/Attached.antt =====
-- controller/src/core/runtime.rs: what `attach_space` has done when it returns.
use vldb_controller.Base.{
  ℕ, String, Option, some, true, false, ◌≡◌, refl, ◌&&◌, ◌||◌, arith, inl, inr, ◌∙◌, ap, ◌⊎◌,
  is_some,
}
use vldb_controller.Base.Order.{eqb, eqb_refl, str_ord}
use vldb_controller.BTreeMap
use vldb_controller.Types.{SpaceRegistration, SpaceSnapshot}
use vldb_controller.Runtime.Fault.{BackendKind, Result, ok, err, panic, is_ok}
use vldb_controller.Runtime.Key.{BindingKey}
use vldb_controller.Runtime.State.{SpaceState, ControllerState}
use vldb_controller.Runtime.Keys.{normalize_client_id}
use vldb_controller.Runtime.Validate.{validate_space_registration}
use vldb_controller.Runtime.Spaces.{
  attach_target, attach_space, attach_to, link, add_attached_client,
}
use vldb_controller.Registry.Views.{
  binding_at, attached_by_client, attached_by_space, attached_by_client_same,
}
use vldb_controller.Registry.Invariant.{IsConsistent}
use vldb_controller.Registry.Methods.{pruned, pruned-IsConsistent}
use vldb_controller.Registry.Attach.{Linked-link}
use vldb_controller.Registry.Attachments.{IsTarget, attach_target-IsTarget}

-- The caller is attached to the space, on both sides, no other attachment and no binding has changed, and the
-- space has the registration of the request.
pub record IsAttached (registration : SpaceRegistration) (client_id : Option String)
    (state after : ControllerState) : Type 0 where
  pub client : String
  pub caller : normalize_client_id client_id ≡ some client
  pub by_client :
      (c s : String)
      → attached_by_client c s after
        ≡ (attached_by_client c s state || (eqb c client && eqb s registration.space_id))
  pub by_space :
      (c s : String)
      → attached_by_space c s after
        ≡ (attached_by_space c s state || (eqb c client && eqb s registration.space_id))
  pub matching :
      (space : SpaceState) × (BTreeMap.get registration.space_id after.spaces ≡ some space)
      × (space.registration ≡ registration)
  pub bound : (k : BackendKind) (j : BindingKey) → binding_at k j after ≡ binding_at k j state

-- The answer is a snapshot and the caller is attached, or it is an error and no one is.
abbrev pub Attachment :
    SpaceRegistration
    → Option String
    → ControllerState
    → ControllerState
    → Result SpaceSnapshot × ControllerState
    → Type 0
Attachment registration client_id state before r =
    ((is_ok r.0 ≡ true) × IsAttached registration client_id before r.1)
    ⊎ ((is_ok r.0 ≡ false) × ((r.1 ≡ state) ⊎ (r.1 ≡ before)))

module _ (now : ℕ) (registration : SpaceRegistration) (client_id : Option String)
    (state : ControllerState) (h : IsConsistent state) where
  same_sessions :
      (target : ControllerState)
      → target.clients ≡ (pruned now state).clients
      → (c s : String) → attached_by_client c s target ≡ attached_by_client c s (pruned now state)
  same_sessions target e c s = attached_by_client_same target (pruned now state) c s e

  linked :
      (client : String) (target : ControllerState)
      → IsTarget registration client_id (pruned now state) client target
      → IsAttached registration client_id
          (pruned now state)
          (link client registration.space_id target)
  unfolding link
  linked client target t =
      let l = Linked-link client registration.space_id target t.session t.there in
      record {
        client = client;
        caller = t.caller;
        by_client = λ c s.
            l.by_client c s
            ∙ ap (λ b. b || (eqb c client && eqb s registration.space_id))
                (same_sessions target t.sessions c s);
        by_space = λ c s.
            l.by_space c s
            ∙ ap (λ b. b || (eqb c client && eqb s registration.space_id)) (t.attachments c s);
        matching = (
          add_attached_client client t.matching.0,
          rw
              (
                link,
                BTreeMap.get-modify registration.space_id registration.space_id
                    (add_attached_client client) target.spaces,
                eqb_refl registration.space_id,
                t.matching.1,
              )
              refl,
          t.matching.2,
        );
        bound = λ k j. l.bound k j ∙ t.bindings k j;
      }

  space_held :
      (client : String) (target : ControllerState)
      → is_some (BTreeMap.get registration.space_id target.spaces) ≡ true
      → is_ok (attach_to registration.space_id (pruned now state) (ok (client, target))).0 ≡ true
  unfolding link
  space_held client target there = ground (
    arith,
    BTreeMap.get-modify registration.space_id registration.space_id (add_attached_client client)
        target.spaces,
    eqb_refl registration.space_id,
  )

  attached_to :
      (r : Result (String × ControllerState))
      → attach_target registration client_id (pruned now state) ≡ r
      → Attachment registration client_id state
          (pruned now state)
          (attach_to registration.space_id (pruned now state) r)
  attached_to (ok (client, target)) e =
      let t =
        attach_target-IsTarget registration client_id (pruned now state)
          (pruned-IsConsistent state h now) client target e in
      inl (space_held client target t.there, linked client target t)
  attached_to (err x) e = inr (refl, inr refl)
  attached_to (panic x) e = inr (refl, inr refl)

  -- In a consistent registry, attaching a space either answers with a snapshot, and then the caller has a
  -- trimmed name under which it is attached to the space in both indexes, the registration of the space is the
  -- one of the request, and all other attachments, in both indexes, and all bindings are as the removal of
  -- expired sessions left them; or it answers with an error, and the
  -- state is the one before the call or the one that the removal of expired sessions left.
  pub attach_space-Attachment :
      Attachment registration client_id state
        (pruned now state)
        (attach_space now registration client_id state)
  unfolding attach_space
  attach_space-Attachment = go (validate_space_registration registration) refl
    where
      go :
          (r : Result (Unit {0}))
          → validate_space_registration registration ≡ r
          → Attachment registration client_id state
              (pruned now state)
              (attach_space now registration client_id state)
      go (ok u) e = rw (e, attach_space) (attached_to _ refl)
      go (err x) e = rw (e, attach_space) (inr (refl, inl refl))
      go (panic x) e = rw (e, attach_space) (inr (refl, inl refl))
