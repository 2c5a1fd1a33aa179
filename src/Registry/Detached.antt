-- ===== src/Registry/Detached.antt =====
-- controller/src/core/runtime.rs: what `detach_space` has done when it returns.
use vldb_controller.Base.{
  ℕ, String, Option, some, Bool, true, false, not, ◌≡◌, ◌≢◌, refl, ◌&&◌, arith, inl, inr, ◌∙◌, ap,
  is_some, Option-cases, Bool-cases, if◌then◌else◌, subst, sym,
}
use vldb_controller.Base.Order.{eqb, str_ord}
use vldb_controller.Base.Text.{is_blank}
use vldb_controller.BTreeMap
use vldb_controller.Runtime.Fault.{BackendKind, Result, ok, err, panic, space_still_in_use}
use vldb_controller.Runtime.Key.{BindingKey}
use vldb_controller.Runtime.State.{SpaceState, ControllerState}
use vldb_controller.Runtime.Clients.{is_idle}
use vldb_controller.Runtime.Spaces.{
  detach_space, detach_then, detach_client, remove_if_idle, unlink,
}
use vldb_controller.Registry.Views.{
  binding_at, attached_by_client, attached_by_space, owned_by, attached_by_client_same,
}
use vldb_controller.Registry.Methods.{pruned}
use vldb_controller.Registry.Detach.{
  Unlinked, Unlinked-unlink, forgotten, forgotten-dropped, bound_dropped, by_space_dropped,
  detach_client-unlink, detach_client-free, owns_in_space-false, no_session,
}

-- The same attachments and bindings.
record IsAlike (state after : ControllerState) : Type 0 where
  pub sessions : after.clients ≡ state.clients
  pub by_space : (c s : String) → attached_by_space c s after ≡ attached_by_space c s state
  pub bound : (k : BackendKind) (j : BindingKey) → binding_at k j after ≡ binding_at k j state

IsAlike-refl : (state : ControllerState) → IsAlike state state
IsAlike-refl state = record { sessions = refl; by_space = λ c s. refl; bound = λ k j. refl }

module _ (client_id space_id : String) (state : ControllerState) where
  dropped-IsAlike :
      (space : SpaceState)
      → BTreeMap.get space_id state.spaces ≡ some space
      → is_idle space ≡ true
      → IsAlike state (forgotten client_id space_id state space)
  dropped-IsAlike space there idle =
      rw (forgotten-dropped client_id space_id state space there idle) (record {
        sessions = refl;
        by_space = by_space_dropped client_id space_id state space there idle;
        bound = bound_dropped client_id space_id state space there idle;
      })

  remove_if_idle-IsAlike :
      (client : Option String)
      → IsAlike state (remove_if_idle space_id client (BTreeMap.get space_id state.spaces) state).1
  unfolding remove_if_idle forgotten
  remove_if_idle-IsAlike client = elim (Option-cases (BTreeMap.get space_id state.spaces)) [
    | inl e ↦ rw (e, remove_if_idle) (IsAlike-refl state)
    | inr (space, e) ↦ elim (Bool-cases (is_idle space)) [
      | inl i ↦ rw (e, i, remove_if_idle) (dropped-IsAlike space e i)
      | inr i ↦ rw (e, i, remove_if_idle) (go (is_some client))
    ]
  ]
    where
      go :
          (b : Bool)
          → IsAlike state
              (if◌then◌else◌ {A = Result Bool × ControllerState} b
                (ok true, state)
                (err (space_still_in_use space_id), state)).1
      go true = IsAlike-refl state
      go false = IsAlike-refl state

  -- What a named client has shown when it is let go.
  unlinked :
      (after : ControllerState)
      → detach_client space_id client_id state ≡ ok after
      → (unlink client_id space_id state ≡ after)
        × ((k : BackendKind) (j : BindingKey)
            → eqb j.space_id space_id ≡ true
            → owned_by k client_id j state ≡ false)
  unlinked after e = elim (Option-cases (BTreeMap.get client_id state.clients)) [
    | inl n ↦ absurd (no_session client_id space_id state after n e)
    | inr (client, there) ↦ (
      detach_client-unlink client_id space_id state client after there e,
      λ k.
          owns_in_space-false client_id space_id state k client there
            (detach_client-free client_id space_id state client after there e k),
    )
  ]

-- The client is attached to the space no more and owned no binding in it; no other attachment and no binding has
-- changed.
pub record IsDetached (client_id space_id : String) (before after : ControllerState) : Type 0 where
  pub free :
      (k : BackendKind) (j : BindingKey)
      → eqb j.space_id space_id ≡ true
      → owned_by k client_id j before ≡ false
  pub by_client :
      (c s : String)
      → attached_by_client c s after
        ≡ (attached_by_client c s before && not (eqb c client_id && eqb s space_id))
  pub by_space :
      (c s : String)
      → attached_by_space c s after
        ≡ (attached_by_space c s before && not (eqb c client_id && eqb s space_id))
  pub bound : (k : BackendKind) (j : BindingKey) → binding_at k j after ≡ binding_at k j before

ok_differs : ok false ≢ ok true
ok_differs e = ground arith

module _ (now : ℕ) (space_id client_id : String) (state : ControllerState) where
  abbrev before : ControllerState
  before = pruned now state

  abbrev outcome : Result ControllerState → Result Bool × ControllerState
  outcome = detach_then space_id (some client_id) before

  let_go :
      (after : ControllerState)
      → detach_client space_id client_id before ≡ ok after
      → IsDetached client_id space_id before (outcome (ok after)).1
  let_go after e =
      let (same, free) = unlinked client_id space_id before after e in
      let l =
        subst (Unlinked client_id space_id before) same
          (Unlinked-unlink client_id space_id before) in
      let a = remove_if_idle-IsAlike client_id space_id after (some client_id) in
      record {
        free = free;
        by_client = λ c s.
            attached_by_client_same (outcome (ok after)).1 after c s a.sessions ∙ l.by_client c s;
        by_space = λ c s. a.by_space c s ∙ l.by_space c s;
        bound = λ k j. a.bound k j ∙ l.bound k j;
      }

  answered :
      (r : Result ControllerState)
      → detach_client space_id client_id before ≡ r
      → (outcome r).0 ≡ ok true
      → IsDetached client_id space_id before (outcome r).1
  answered (ok after) e t = let_go after e
  answered (err x) e t = absurd (ground arith)
  answered (panic x) e t = absurd (ground arith)

  module _ (name : is_blank client_id ≡ false) where
    detach_there :
        BTreeMap.contains_key space_id before.spaces ≡ true
        → detach_space now space_id (some client_id) state
          ≡ outcome (detach_client space_id client_id before)
    unfolding detach_space
    detach_there there = rw (there, name, detach_space) refl

    detach_absent :
        BTreeMap.contains_key space_id before.spaces ≡ false
        → (detach_space now space_id (some client_id) state).0 ≡ ok false
    unfolding detach_space
    detach_absent absent = rw (absent, detach_space) refl

    -- When a client that gives a name other than white space detaches a space and is answered `true`, it
    -- is no longer attached to the space in either index, it owned no binding there, and every binding
    -- and every other attachment is as the removal of expired sessions left it.
    pub detach-IsDetached :
        (detach_space now space_id (some client_id) state).0 ≡ ok true
        → IsDetached client_id space_id before (detach_space now space_id (some client_id) state).1
    detach-IsDetached e = elim (Bool-cases (BTreeMap.contains_key space_id before.spaces)) [
      | inl there ↦ rw (detach_there there) (
          answered _ refl
            (sym (ap (λ (r : Result Bool × ControllerState). r.0) (detach_there there)) ∙ e))
      | inr absent ↦ absurd (ok_differs (sym (detach_absent absent) ∙ e))
    ]
