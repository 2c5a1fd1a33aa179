-- ===== src/Registry/Detach.antt =====
-- controller/src/core/runtime.rs: `detach_space` keeps the registry consistent.
use mathlib.Core.Option
use vldb_controller.Base.{
  String, Option, none, some, Bool, true, false, ◌&&◌, not, ◌≡◌, refl, arith, is_some,
  if◌then◌else◌, ◌∙◌, ap, sym, Option-cases, Bool-cases, inl, inr, ◌≢◌,
}
use vldb_controller.Base.Order.{eqb, str_ord, eqb→eq}
use vldb_controller.BTreeMap
use vldb_controller.BTreeSet
use vldb_controller.Runtime.Fault.{
  BackendKind, sqlite, lancedb, Result, ok, err, space_still_in_use,
}
use vldb_controller.Runtime.Key.{BindingKey, key_ord}
use vldb_controller.Runtime.State.{ClientState, SpaceState, ControllerState}
use vldb_controller.Runtime.Clients.{is_owner, is_idle, drop_attached_client}
use vldb_controller.Runtime.Access.{owner_of}
use vldb_controller.Runtime.Spaces.{
  owns_in_space, remove_attached_space, unlink, detach_client, forget_space, remove_if_idle,
}
use vldb_controller.Registry.Views.{
  binding_in, binding_at, attached_by_client, attached_by_space, owned_by, client_owns,
  client_attached, space_attached, uses, tracked_same,
}
use vldb_controller.Registry.Invariant.{IsConsistent}
use vldb_controller.Registry.Catalog.{IsCatalog-same}

-- The attachment is gone on both sides, and no other attachment and no binding changes.
pub record Unlinked (client_id space_id : String) (state after : ControllerState) : Type 0 where
  pub by_client :
      (c s : String)
      → attached_by_client c s after
        ≡ (attached_by_client c s state && not (eqb c client_id && eqb s space_id))
  pub by_space :
      (c s : String)
      → attached_by_space c s after
        ≡ (attached_by_space c s state && not (eqb c client_id && eqb s space_id))
  pub bound : (k : BackendKind) (j : BindingKey) → binding_at k j after ≡ binding_at k j state
  pub owned :
      (k : BackendKind) (c : String) (j : BindingKey) → owned_by k c j after ≡ owned_by k c j state

module _ (client_id space_id : String) (state : ControllerState) where
  client_unlink :
      (b : Bool) (s : String) (o : Option ClientState)
      → client_attached s (if b then Option.map (remove_attached_space space_id) o else o)
        ≡ (client_attached s o && not (b && eqb s space_id))
  client_unlink b s none = ground arith
  client_unlink b s (some client) =
      ground (arith, BTreeSet.contains-remove s space_id client.attached_space_ids)

  space_unlink :
      (b : Bool) (c : String) (o : Option SpaceState)
      → space_attached c (if b then Option.map (drop_attached_client client_id) o else o)
        ≡ (space_attached c o && not (eqb c client_id && b))
  space_unlink b c none = ground arith
  space_unlink b c (some space) =
      ground (arith, BTreeSet.contains-remove c client_id space.attached_clients)

  owns_unlink :
      (b : Bool) (k : BackendKind) (j : BindingKey) (o : Option ClientState)
      → client_owns k j (if b then Option.map (remove_attached_space space_id) o else o)
        ≡ client_owns k j o
  owns_unlink b k j none = ground arith
  owns_unlink true k j (some client) = refl
  owns_unlink false k j (some client) = refl

  binding_unlink :
      (b : Bool) (k : BackendKind) (j : BindingKey) (o : Option SpaceState)
      → binding_in k j (if b then Option.map (drop_attached_client client_id) o else o)
        ≡ binding_in k j o
  binding_unlink b k j none = ground arith
  binding_unlink true k j (some space) = refl
  binding_unlink false k j (some space) = refl

  pub Unlinked-unlink : Unlinked client_id space_id state (unlink client_id space_id state)
  unfolding unlink binding_at attached_by_client attached_by_space owned_by
  Unlinked-unlink = record {
    by_client = λ c s.
        rw (BTreeMap.get-modify c client_id (remove_attached_space space_id) state.clients)
          (client_unlink (eqb c client_id) s (BTreeMap.get c state.clients));
    by_space = λ c s.
        rw (BTreeMap.get-modify s space_id (drop_attached_client client_id) state.spaces)
          (space_unlink (eqb s space_id) c (BTreeMap.get s state.spaces));
    bound = λ k j.
        rw (BTreeMap.get-modify j.space_id space_id (drop_attached_client client_id) state.spaces)
          (binding_unlink (eqb j.space_id space_id) k j (BTreeMap.get j.space_id state.spaces));
    owned = λ k c j.
        rw (BTreeMap.get-modify c client_id (remove_attached_space space_id) state.clients)
          (owns_unlink (eqb c client_id) k j (BTreeMap.get c state.clients));
  }

  -- A client that owns a binding in the space may not leave it.
  pub unlink-IsConsistent :
      ((k : BackendKind) (j : BindingKey)
        → eqb j.space_id space_id ≡ true
        → owned_by k client_id j state ≡ false)
      → IsConsistent state
      → IsConsistent (unlink client_id space_id state)
  unfolding unlink
  unlink-IsConsistent free h =
      let l = Unlinked-unlink in
      record {
        indexed = record {
          ownership = λ k c j.
              l.owned k c j
              ∙ h.indexed.ownership k c j
              ∙ ap (λ b. is_owner c (owner_of b)) (sym (l.bound k j));
          usage = λ k r j.
              tracked_same (unlink client_id space_id state) state k r j refl
              ∙ h.indexed.usage k r j
              ∙ ap (uses r) (sym (l.bound k j));
        };
        catalog = IsCatalog-same state (unlink client_id space_id state) refl refl refl h.catalog;
        symmetric = λ c s. ground (arith, l.by_client c s, l.by_space c s, h.symmetric c s);
        owners_attached = λ k c j o. ground (
          arith,
          l.by_client c j.space_id,
          l.owned k c j,
          h.owners_attached k c j,
          free k j,
          eqb→eq c client_id,
        );
        owners = λ k j. ground (arith, l.bound k j, h.owners k j);
      }

  -- The guard of `detach_space` sees every binding that the client owns in the space.
  pub owns_in_space-false :
      (k : BackendKind) (client : ClientState)
      → BTreeMap.get client_id state.clients ≡ some client
      → owns_in_space k space_id client ≡ false
      → (j : BindingKey) → eqb j.space_id space_id ≡ true
      → owned_by k client_id j state ≡ false
  unfolding owns_in_space owned_by BTreeSet.contains
  owns_in_space-false k client e h j f = rw e (
      ground (
        arith,
        BTreeMap.any-false (λ (key : BindingKey) u. eqb key.space_id space_id)
            (client.owned_binding_keys k) h j,
      ))

  module _ (client : ClientState) (after : ControllerState)
      (there : BTreeMap.get client_id state.clients ≡ some client)
      (done : detach_client space_id client_id state ≡ ok after) where
    pub detach_client-unlink : unlink client_id space_id state ≡ after
    unfolding detach_client
    detach_client-unlink = ground arith

    pub detach_client-free : (k : BackendKind) → owns_in_space k space_id client ≡ false
    unfolding detach_client
    detach_client-free sqlite = ground arith
    detach_client-free lancedb = ground arith

  pub no_session :
      (after : ControllerState)
      → BTreeMap.get client_id state.clients ≡ none
      → detach_client space_id client_id state ≢ ok after
  unfolding detach_client
  no_session after e h = ground arith

  pub detach_client-IsConsistent :
      (after : ControllerState)
      → detach_client space_id client_id state ≡ ok after
      → IsConsistent state
      → IsConsistent after
  detach_client-IsConsistent after e h =
      elim (Option-cases (BTreeMap.get client_id state.clients)) [
        | inl n ↦ absurd (no_session after n e)
        | inr (client, there) ↦ rw (← detach_client-unlink client after there e) (
            unlink-IsConsistent
              (λ k. owns_in_space-false k client there (detach_client-free client after there e k))
              h)
      ]

  unfoldable pub forgotten : (space : SpaceState) → ControllerState
  forgotten space =
      forget_space space_id (BTreeSet.to_list space.attached_clients)
        (record state { spaces = BTreeMap.remove space_id state.spaces })

  module _ (space : SpaceState) (there : BTreeMap.get space_id state.spaces ≡ some space)
      (idle : is_idle space ≡ true) where
    abbrev pub dropped : ControllerState
    dropped = record state { spaces = BTreeMap.remove space_id state.spaces }

    pub forgotten-dropped : forgotten space ≡ dropped
    unfolding forgotten forget_space is_idle
    forgotten-dropped = rw (BTreeSet.to_list_of_is_empty space.attached_clients (ground arith)) refl

    no_binding : (k : BackendKind) (b : String) → BTreeMap.get b (space.bindings k) ≡ none
    unfolding is_idle
    no_binding sqlite b = BTreeMap.get_of_is_empty (space.bindings sqlite) (ground arith) b
    no_binding lancedb b = BTreeMap.get_of_is_empty (space.bindings lancedb) (ground arith) b

    no_client : (c : String) → BTreeSet.contains c space.attached_clients ≡ false
    unfolding is_idle
    no_client c = BTreeSet.contains_of_is_empty space.attached_clients (ground arith) c

    pub bound_dropped :
        (k : BackendKind) (j : BindingKey) → binding_at k j dropped ≡ binding_at k j state
    unfolding binding_at
    bound_dropped k j = ground (
      arith,
      BTreeMap.get-remove j.space_id space_id state.spaces,
      no_binding k j.binding_id,
      eqb→eq j.space_id space_id,
    )

    pub by_space_dropped :
        (c s : String) → attached_by_space c s dropped ≡ attached_by_space c s state
    unfolding attached_by_space
    by_space_dropped c s =
        ground (arith, BTreeMap.get-remove s space_id state.spaces, no_client c, eqb→eq s space_id)

    forget-IsConsistent : IsConsistent state → IsConsistent (forgotten space)
    unfolding owned_by attached_by_client
    forget-IsConsistent h = rw forgotten-dropped (record {
      indexed = record {
        ownership = λ k c j.
            h.indexed.ownership k c j ∙ ap (λ b. is_owner c (owner_of b)) (sym (bound_dropped k j));
        usage = λ k r j.
            tracked_same dropped state k r j refl
            ∙ h.indexed.usage k r j
            ∙ ap (uses r) (sym (bound_dropped k j));
      };
      catalog = IsCatalog-same state dropped refl refl refl h.catalog;
      symmetric = λ c s. h.symmetric c s ∙ sym (by_space_dropped c s);
      owners_attached = h.owners_attached;
      owners = λ k j. ground (arith, bound_dropped k j, h.owners k j);
    })

  pub remove_if_idle-IsConsistent :
      (client : Option String)
      → IsConsistent state
      → IsConsistent (remove_if_idle space_id client (BTreeMap.get space_id state.spaces) state).1
  unfolding remove_if_idle forgotten
  remove_if_idle-IsConsistent client h = elim (Option-cases (BTreeMap.get space_id state.spaces)) [
    | inl e ↦ rw (e, remove_if_idle) h
    | inr (space, e) ↦ elim (Bool-cases (is_idle space)) [
      | inl i ↦ rw (e, i, remove_if_idle) (forget-IsConsistent space e i h)
      | inr i ↦ rw (e, i, remove_if_idle) (go (is_some client))
    ]
  ]
    where
      go :
          (b : Bool)
          → IsConsistent
              (if◌then◌else◌ {A = Result Bool × ControllerState} b
                (ok true, state)
                (err (space_still_in_use space_id), state)).1
      go true = h
      go false = h
