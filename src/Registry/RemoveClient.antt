-- ===== src/Registry/RemoveClient.antt =====
-- controller/src/core/runtime.rs: `remove_client_locked` keeps the registry consistent, and what is left
-- of the client afterwards.
use vldb_controller.Base.{
  ℕ, String, Option, none, some, true, false, ◌&&◌, not, ◌≡◌, refl, arith, if◌then◌else◌, ◌∙◌, sym,
  ap, List, inl, inr, Option-cases,
}
use vldb_controller.Base.Order.{eqb, str_ord, eqb→eq, eqb_refl, eqb_sym, nat_ord}
use vldb_controller.BTreeMap
use vldb_controller.BTreeMap.Entries.{listed, keep_if}
use vldb_controller.BTreeSet
use vldb_controller.Runtime.Fault.{BackendKind}
use vldb_controller.Runtime.Key.{BindingKey, key_ord}
use vldb_controller.Runtime.State.{ClientState, SqliteQueryStreamEntry, ControllerState}
use vldb_controller.Runtime.Access.{owner_of}
use vldb_controller.Runtime.Clients.{
  is_owner, cleanup_empty_spaces_locked, detach_all, drop_streams, release_owned,
  remove_client_locked,
}
use vldb_controller.Registry.Views.{
  binding_at, attached_by_client, attached_by_space, owned_by, uses, SameCounters,
  SameCounters_trans, owner_unique, attached_by_space_same, binding_at_same, tracked_same,
}
use vldb_controller.Registry.Invariant.{IsConsistent}
use vldb_controller.Registry.Left.{Left, owner_gone, stays}
use vldb_controller.Registry.Catalog.{IsCatalog-same}
use vldb_controller.Registry.Release.{GivenBack, GivenBack-release_owned}
use vldb_controller.Registry.Leave.{
  SameButSpaces, detach_all-same, binding_at-detach_all, attached-detach_all, remove_spaces-same,
  binding_at-cleanup, attached-cleanup,
}

module _ (state : ControllerState) (client_id : String) (client : ClientState)
    (there : BTreeMap.get client_id state.clients ≡ some client) (h : IsConsistent state) where
  abbrev released : ControllerState
  released = release_owned client state

  given : GivenBack client_id state released
  given = (GivenBack-release_owned state client_id client there h).0

  consistent : IsConsistent released
  consistent = (GivenBack-release_owned state client_id client there h).1

  abbrev spaces_left : List String
  spaces_left = BTreeSet.to_list client.attached_space_ids

  abbrev gone : ControllerState
  gone = record released { clients = BTreeMap.remove client_id released.clients }

  abbrev detached : ControllerState
  detached = detach_all client_id spaces_left gone

  abbrev final : ControllerState
  final = cleanup_empty_spaces_locked (drop_streams client_id detached)

  same_final : SameButSpaces final (drop_streams client_id detached)
  unfolding cleanup_empty_spaces_locked
  same_final = remove_spaces-same _ _

  clients-final : final.clients ≡ BTreeMap.remove client_id released.clients
  unfolding drop_streams
  clients-final = same_final.clients ∙ (detach_all-same client_id spaces_left gone).clients

  resources-final : final.resources ≡ released.resources
  unfolding drop_streams
  resources-final = same_final.resources ∙ (detach_all-same client_id spaces_left gone).resources

  bound_final : (k : BackendKind) (j : BindingKey) → binding_at k j final ≡ binding_at k j released
  unfolding drop_streams
  bound_final k j =
      binding_at-cleanup _ k j
      ∙ binding_at_same (drop_streams client_id detached) detached k j refl
      ∙ binding_at-detach_all client_id spaces_left gone k j
      ∙ binding_at_same gone released k j refl

  get_final :
      (c : String)
      → BTreeMap.get c final.clients
        ≡ (if eqb c client_id then none else BTreeMap.get c released.clients)
  get_final c = ap (BTreeMap.get c) clients-final ∙ BTreeMap.get-remove c client_id released.clients

  owned_final :
      (k : BackendKind) (c : String) (j : BindingKey)
      → owned_by k c j final ≡ (owned_by k c j released && not (eqb c client_id))
  unfolding owned_by
  owned_final k c j = rw (get_final c) (ground arith)

  by_client_final :
      (c s : String)
      → attached_by_client c s final ≡ (attached_by_client c s released && not (eqb c client_id))
  unfolding attached_by_client
  by_client_final c s = rw (get_final c) (ground arith)

  own_list : (s : String) → listed s spaces_left ≡ attached_by_client client_id s state
  unfolding attached_by_client
  own_list s = BTreeSet.listed-to_list s client.attached_space_ids ∙ rw there refl

  by_space_final :
      (c s : String)
      → attached_by_space c s final ≡ (attached_by_space c s state && not (eqb c client_id))
  unfolding drop_streams
  by_space_final c s =
      attached-cleanup _ c s
      ∙ attached_by_space_same (drop_streams client_id detached) detached c s refl
      ∙ attached-detach_all client_id spaces_left gone c s
      ∙ ground (
        arith,
        attached_by_space_same gone released c s refl,
        given.by_space c s,
        own_list s,
        h.symmetric c s,
        eqb→eq c client_id,
      )

  -- The client owned what its own list names, and that is gone.
  owns_nothing : (k : BackendKind) (j : BindingKey) → owned_by k client_id j released ≡ false
  owns_nothing k j = ground (arith, given.owned k client_id j)

  is_owner_gone : (o : Option String) → is_owner client_id o ≡ owner_gone (λ c. eqb c client_id) o
  is_owner_gone none = refl
  is_owner_gone (some owner) = eqb_sym client_id owner

  stays_iff :
      (id : ℕ) (o : Option SqliteQueryStreamEntry)
      → keep_if (λ id entry. not (is_owner client_id entry.owner_client_id)) id o
        ≡ keep_if (stays (λ c. eqb c client_id)) id o
  stays_iff id none = refl
  stays_iff id (some entry) = go entry.owner_client_id
    where
      go :
          (owner : Option String)
          → (if not (is_owner client_id owner) then some entry else none)
            ≡ (if not (owner_gone (λ c. eqb c client_id) owner) then some entry else none)
      go none = refl
      go (some owner) = rw (eqb_sym client_id owner) refl

  streams_final :
      (id : ℕ)
      → BTreeMap.get id final.sqlite_query_streams
        ≡ keep_if (stays (λ c. eqb c client_id)) id (BTreeMap.get id state.sqlite_query_streams)
  unfolding drop_streams
  streams_final id =
      ap (BTreeMap.get id) same_final.streams
      ∙ BTreeMap.get-retain id (λ id entry. not (is_owner client_id entry.owner_client_id))
          detached.sqlite_query_streams
      ∙ stays_iff id (BTreeMap.get id detached.sqlite_query_streams)
      ∙ ap (λ m. keep_if (stays (λ c. eqb c client_id)) id (BTreeMap.get id m))
          ((detach_all-same client_id spaces_left gone).streams ∙ given.streams)

  counters_final : SameCounters final state
  unfolding drop_streams
  counters_final = SameCounters_trans final detached state same_final.counters (
      SameCounters_trans detached released state
        (detach_all-same client_id spaces_left gone).counters given.counters)

  Left-final : Left (λ c. eqb c client_id) state final
  Left-final = record {
    kept = λ c. rw (get_final c) (ground (arith, given.kept c));
    owned = λ k c j. ground (
      arith,
      owned_final k c j,
      given.owned k c j,
      given.bound k j,
      h.indexed.ownership k c j,
      h.indexed.ownership k client_id j,
      owner_unique c client_id (owner_of (binding_at k j state)),
      eqb_refl c,
      eqb→eq c client_id,
    );
    bound = λ k j.
        bound_final k j
        ∙ ground (
          arith,
          given.bound k j,
          h.indexed.ownership k client_id j,
          is_owner_gone (owner_of (binding_at k j state)),
        );
    by_space = by_space_final;
    streams = streams_final;
    counters = counters_final;
  }

  IsConsistent-final : IsConsistent final
  unfolding drop_streams
  IsConsistent-final = record {
    indexed = record {
      ownership = λ k c j. ground (
        arith,
        owned_final k c j,
        bound_final k j,
        consistent.indexed.ownership k c j,
        owns_nothing k j,
        eqb→eq c client_id,
      );
      usage = λ k r j.
          tracked_same _ _ k r j resources-final
          ∙ consistent.indexed.usage k r j
          ∙ ap (uses r) (sym (bound_final k j));
    };
    catalog =
        IsCatalog-same released final (sym resources-final)
          (sym (
            same_final.resource_backends
            ∙ (detach_all-same client_id spaces_left gone).resource_backends))
          (sym (
            same_final.resource_configs
            ∙ (detach_all-same client_id spaces_left gone).resource_configs))
          consistent.catalog;
    symmetric = λ c s.
        ground
          (arith, by_client_final c s, by_space_final c s, given.by_client c s, h.symmetric c s);
    owners_attached = λ k c j o.
        ground (
          arith,
          owned_final k c j,
          by_client_final c j.space_id,
          consistent.owners_attached k c j,
        );
    owners = λ k j. ground (arith, bound_final k j, consistent.owners k j);
  }

-- A client that has no session.
pub remove_client-absent :
    (state : ControllerState) (client_id : String)
    → BTreeMap.get client_id state.clients ≡ none
    → remove_client_locked state client_id ≡ (false, state)
unfolding remove_client_locked
remove_client-absent state client_id e = rw (e, remove_client_locked) refl

-- A client that has one.
pub remove_client-present :
    (state : ControllerState) (client_id : String) (client : ClientState)
    → IsConsistent state
    → BTreeMap.get client_id state.clients ≡ some client
    → ((remove_client_locked state client_id).0 ≡ true)
      × Left (λ c. eqb c client_id) state (remove_client_locked state client_id).1
      × IsConsistent (remove_client_locked state client_id).1
unfolding remove_client_locked
remove_client-present state client_id client h e =
    elim (Option-cases (BTreeMap.get client_id (release_owned client state).clients)) [
      | inl f ↦ absurd (ground (arith, (given state client_id client e h).kept client_id))
      | inr (c', f) ↦ (
        rw (e, f, remove_client_locked) refl,
        rw (e, f, remove_client_locked) (Left-final state client_id client e h),
        rw (e, f, remove_client_locked) (IsConsistent-final state client_id client e h),
      )
    ]
