-- ===== src/Registry/Session.antt =====
-- controller/src/core/runtime.rs: a new session, and a lease that starts again, keep the registry
-- consistent.
use mathlib.Core.Option
use vldb_controller.Base.{
  ℕ, String, Option, none, some, Bool, true, false, ◌≡◌, refl, arith, is_some, if◌then◌else◌, ◌∙◌,
  ap, sym,
}
use vldb_controller.Base.Order.{eqb, str_ord, eqb→eq}
use vldb_controller.BTreeMap
use vldb_controller.BTreeSet
use vldb_controller.Types.{ClientRegistration}
use vldb_controller.Runtime.Fault.{BackendKind}
use vldb_controller.Runtime.Key.{BindingKey, key_ord}
use vldb_controller.Runtime.State.{ClientState, ControllerState, VldbControllerRuntime}
use vldb_controller.Runtime.Clients.{is_owner}
use vldb_controller.Runtime.Access.{owner_of}
use vldb_controller.Runtime.Sessions.{new_client, insert_client, touch_lease, renew_lease}
use vldb_controller.Registry.Views.{
  attached_by_client, owned_by, client_owns, client_attached, uses, tracked_same, binding_at_same,
  attached_by_space_same,
}
use vldb_controller.Registry.Invariant.{IsConsistent}
use vldb_controller.Registry.Catalog.{IsCatalog-same}

-- A change of the clients that the views do not see.
module _ (s t : ControllerState) (p : t.spaces ≡ s.spaces) (r : t.resources ≡ s.resources)
    (b : t.resource_backends ≡ s.resource_backends) (g : t.resource_configs ≡ s.resource_configs)
    (owned : (k : BackendKind) (c : String) (j : BindingKey) → owned_by k c j t ≡ owned_by k c j s)
    (attached : (c d : String) → attached_by_client c d t ≡ attached_by_client c d s) where
  IsConsistent-clients : IsConsistent s → IsConsistent t
  IsConsistent-clients h = record {
    indexed = record {
      ownership = λ k c j.
          owned k c j
          ∙ h.indexed.ownership k c j
          ∙ ap (λ b. is_owner c (owner_of b)) (sym (binding_at_same t s k j p));
      usage = λ k q j.
          tracked_same t s k q j r
          ∙ h.indexed.usage k q j
          ∙ ap (uses q) (sym (binding_at_same t s k j p));
    };
    catalog = IsCatalog-same s t (sym r) (sym b) (sym g) h.catalog;
    symmetric = λ c d. attached c d ∙ h.symmetric c d ∙ sym (attached_by_space_same t s c d p);
    owners_attached =
        λ k c j o. attached c j.space_id ∙ h.owners_attached k c j (sym (owned k c j) ∙ o);
    owners = λ k j.
        ap (λ b. is_some (owner_of b)) (binding_at_same t s k j p)
        ∙ h.owners k j
        ∙ ap is_some (sym (binding_at_same t s k j p));
  }

module _ (runtime : VldbControllerRuntime) (now : ℕ) (sid : String)
    (registration : ClientRegistration) (state : ControllerState)
    (absent : BTreeMap.get sid state.clients ≡ none) where
  abbrev client : ClientState
  client = new_client runtime now sid registration

  owned_new :
      (k : BackendKind) (c : String) (j : BindingKey)
      → owned_by k c j (insert_client sid client state) ≡ owned_by k c j state
  unfolding owned_by new_client
  owned_new k c j =
      rw (BTreeMap.get-insert c sid client state.clients)
        (ground (arith, BTreeSet.contains-new j, eqb→eq c sid))

  attached_new :
      (c d : String)
      → attached_by_client c d (insert_client sid client state) ≡ attached_by_client c d state
  unfolding attached_by_client new_client
  attached_new c d =
      rw (BTreeMap.get-insert c sid client state.clients)
        (ground (arith, BTreeSet.contains-new d, eqb→eq c sid))

  pub insert_client-IsConsistent :
      IsConsistent state → IsConsistent (insert_client sid client state)
  insert_client-IsConsistent =
      IsConsistent-clients state (insert_client sid client state) refl refl refl refl owned_new
        attached_new

module _ (f : ClientState → ClientState) (state : ControllerState) (client_id : String)
    (owned : (c : ClientState) → (f c).owned_binding_keys ≡ c.owned_binding_keys)
    (attached : (c : ClientState) → (f c).attached_space_ids ≡ c.attached_space_ids) where
  owns_modify :
      (b : Bool) (k : BackendKind) (j : BindingKey) (o : Option ClientState)
      → client_owns k j (if b then Option.map f o else o) ≡ client_owns k j o
  owns_modify true k j none = refl
  owns_modify false k j o = refl
  owns_modify true k j (some c) =
      ap (λ (m : BackendKind → BTreeSet.BTreeSet BindingKey). BTreeSet.contains j (m k)) (owned c)

  attached_modify :
      (b : Bool) (d : String) (o : Option ClientState)
      → client_attached d (if b then Option.map f o else o) ≡ client_attached d o
  attached_modify true d none = refl
  attached_modify false d o = refl
  attached_modify true d (some c) = ap (BTreeSet.contains d) (attached c)

  abbrev modified : ControllerState
  modified = record state { clients = BTreeMap.modify client_id f state.clients }

  owned_modified :
      (k : BackendKind) (c : String) (j : BindingKey)
      → owned_by k c j modified ≡ owned_by k c j state
  unfolding owned_by
  owned_modified k c j =
      rw (BTreeMap.get-modify c client_id f state.clients)
        (owns_modify (eqb c client_id) k j (BTreeMap.get c state.clients))

  attached_modified :
      (c d : String) → attached_by_client c d modified ≡ attached_by_client c d state
  unfolding attached_by_client
  attached_modified c d =
      rw (BTreeMap.get-modify c client_id f state.clients)
        (attached_modify (eqb c client_id) d (BTreeMap.get c state.clients))

  modify-IsConsistent : IsConsistent state → IsConsistent modified
  modify-IsConsistent =
      IsConsistent-clients state modified refl refl refl refl owned_modified attached_modified

pub touch-IsConsistent :
    (runtime : VldbControllerRuntime) (now : ℕ) (client_id : String) (state : ControllerState)
    → IsConsistent state
    → IsConsistent (record state {
      clients = BTreeMap.modify client_id (touch_lease runtime now) state.clients;
    })
unfolding touch_lease
touch-IsConsistent runtime now client_id state =
    modify-IsConsistent (touch_lease runtime now) state client_id (λ c. refl) (λ c. refl)

pub renew-IsConsistent :
    (runtime : VldbControllerRuntime) (now : ℕ) (ttl : Option ℕ) (client_id : String)
    (state : ControllerState)
    → IsConsistent state
    → IsConsistent (record state {
      clients = BTreeMap.modify client_id (renew_lease runtime now ttl) state.clients;
    })
unfolding renew_lease
renew-IsConsistent runtime now ttl client_id state =
    modify-IsConsistent (renew_lease runtime now ttl) state client_id (λ c. refl) (λ c. refl)
