-- ===== src/Registry/Attach.antt =====
-- controller/src/core/runtime.rs: `attach_space` keeps the registry consistent and records the attachment
-- on both sides.
use mathlib.Core.Option
use vldb_controller.Base.{
  String, Option, none, some, Bool, true, false, ◌&&◌, ◌||◌, ◌≡◌, refl, arith, is_some,
  if◌then◌else◌, ◌∙◌, ap, sym,
}
use vldb_controller.Base.Order.{eqb, str_ord, eqb→eq}
use vldb_controller.BTreeMap
use vldb_controller.BTreeSet
use vldb_controller.Types.{SpaceRegistration}
use vldb_controller.Runtime.Fault.{BackendKind}
use vldb_controller.Runtime.Key.{BindingKey, key_ord}
use vldb_controller.Runtime.State.{BindingEntry, ClientState, SpaceState, ControllerState}
use vldb_controller.Runtime.Clients.{is_owner}
use vldb_controller.Runtime.Access.{owner_of}
use vldb_controller.Runtime.Spaces.{
  new_space, insert_space, add_attached_space, add_attached_client, link,
}
use vldb_controller.Registry.Views.{
  binding_in, binding_at, attached_by_client, attached_by_space, owned_by, client_owns,
  client_attached, space_attached, uses, tracked_same,
}
use vldb_controller.Registry.Invariant.{IsConsistent}
use vldb_controller.Registry.Catalog.{IsCatalog-same}

-- A space that is new has no client and no binding, so the views do not see it.
module _ (registration : SpaceRegistration) (state : ControllerState)
    (absent : BTreeMap.get registration.space_id state.spaces ≡ none) where
  abbrev added : ControllerState
  added = insert_space registration.space_id (new_space registration) state

  pub binding_at-added :
      (k : BackendKind) (j : BindingKey) → binding_at k j added ≡ binding_at k j state
  unfolding binding_at
  binding_at-added k j = ground (
    arith,
    BTreeMap.get-insert j.space_id registration.space_id (new_space registration) state.spaces,
    BTreeMap.get-empty {V = BindingEntry} j.binding_id,
    eqb→eq j.space_id registration.space_id,
  )

  pub attached-added : (c s : String) → attached_by_space c s added ≡ attached_by_space c s state
  unfolding attached_by_space
  attached-added c s = ground (
    arith,
    BTreeMap.get-insert s registration.space_id (new_space registration) state.spaces,
    BTreeSet.contains-new c,
    eqb→eq s registration.space_id,
  )

  pub added-IsConsistent : IsConsistent state → IsConsistent added
  unfolding owned_by attached_by_client
  added-IsConsistent h = record {
    indexed = record {
      ownership = λ k c j.
          h.indexed.ownership k c j
          ∙ ap (λ b. is_owner c (owner_of b)) (sym (binding_at-added k j));
      usage = λ k r j.
          tracked_same added state k r j refl
          ∙ h.indexed.usage k r j
          ∙ ap (uses r) (sym (binding_at-added k j));
    };
    catalog = IsCatalog-same state added refl refl refl h.catalog;
    symmetric = λ c s. h.symmetric c s ∙ sym (attached-added c s);
    owners_attached = h.owners_attached;
    owners = λ k j. ground (arith, binding_at-added k j, h.owners k j);
  }

-- The attachment is on both sides, and no other attachment and no binding changes.
pub record Linked (client_id space_id : String) (state after : ControllerState) : Type 0 where
  pub by_client :
      (c s : String)
      → attached_by_client c s after
        ≡ (attached_by_client c s state || (eqb c client_id && eqb s space_id))
  pub by_space :
      (c s : String)
      → attached_by_space c s after
        ≡ (attached_by_space c s state || (eqb c client_id && eqb s space_id))
  pub bound : (k : BackendKind) (j : BindingKey) → binding_at k j after ≡ binding_at k j state
  pub owned :
      (k : BackendKind) (c : String) (j : BindingKey) → owned_by k c j after ≡ owned_by k c j state

module _ (client_id space_id : String) (state : ControllerState)
    (session : is_some (BTreeMap.get client_id state.clients) ≡ true)
    (there : is_some (BTreeMap.get space_id state.spaces) ≡ true) where
  client_link :
      (b : Bool) (s : String) (o : Option ClientState)
      → (b ≡ true → is_some o ≡ true)
      → client_attached s (if b then Option.map (add_attached_space space_id) o else o)
        ≡ (client_attached s o || (b && eqb s space_id))
  client_link b s none h = ground (arith, h)
  client_link b s (some client) h =
      ground (arith, BTreeSet.contains-insert s space_id client.attached_space_ids)

  space_link :
      (b : Bool) (c : String) (o : Option SpaceState)
      → (b ≡ true → is_some o ≡ true)
      → space_attached c (if b then Option.map (add_attached_client client_id) o else o)
        ≡ (space_attached c o || (eqb c client_id && b))
  space_link b c none h = ground (arith, h)
  space_link b c (some space) h =
      ground (arith, BTreeSet.contains-insert c client_id space.attached_clients)

  owns_link :
      (b : Bool) (k : BackendKind) (j : BindingKey) (o : Option ClientState)
      → client_owns k j (if b then Option.map (add_attached_space space_id) o else o)
        ≡ client_owns k j o
  owns_link b k j none = ground arith
  owns_link true k j (some client) = refl
  owns_link false k j (some client) = refl

  binding_link :
      (b : Bool) (k : BackendKind) (j : BindingKey) (o : Option SpaceState)
      → binding_in k j (if b then Option.map (add_attached_client client_id) o else o)
        ≡ binding_in k j o
  binding_link b k j none = ground arith
  binding_link true k j (some space) = refl
  binding_link false k j (some space) = refl

  pub Linked-link : Linked client_id space_id state (link client_id space_id state)
  unfolding link binding_at attached_by_client attached_by_space owned_by
  Linked-link = record {
    by_client = λ c s.
        rw (BTreeMap.get-modify c client_id (add_attached_space space_id) state.clients) (
          client_link (eqb c client_id) s (BTreeMap.get c state.clients)
            (λ e. rw (eqb→eq c client_id e) session));
    by_space = λ c s.
        rw (BTreeMap.get-modify s space_id (add_attached_client client_id) state.spaces) (
          space_link (eqb s space_id) c (BTreeMap.get s state.spaces)
            (λ e. rw (eqb→eq s space_id e) there));
    bound = λ k j.
        rw (BTreeMap.get-modify j.space_id space_id (add_attached_client client_id) state.spaces)
          (binding_link (eqb j.space_id space_id) k j (BTreeMap.get j.space_id state.spaces));
    owned = λ k c j.
        rw (BTreeMap.get-modify c client_id (add_attached_space space_id) state.clients)
          (owns_link (eqb c client_id) k j (BTreeMap.get c state.clients));
  }

  pub link-IsConsistent : IsConsistent state → IsConsistent (link client_id space_id state)
  unfolding link
  link-IsConsistent h =
      let l = Linked-link in
      record {
        indexed = record {
          ownership = λ k c j.
              l.owned k c j
              ∙ h.indexed.ownership k c j
              ∙ ap (λ b. is_owner c (owner_of b)) (sym (l.bound k j));
          usage = λ k r j.
              tracked_same (link client_id space_id state) state k r j refl
              ∙ h.indexed.usage k r j
              ∙ ap (uses r) (sym (l.bound k j));
        };
        catalog = IsCatalog-same state (link client_id space_id state) refl refl refl h.catalog;
        symmetric = λ c s. ground (arith, l.by_client c s, l.by_space c s, h.symmetric c s);
        owners_attached = λ k c j o.
            ground (arith, l.by_client c j.space_id, l.owned k c j, h.owners_attached k c j);
        owners = λ k j. ground (arith, l.bound k j, h.owners k j);
      }
