-- ===== src/Registry/Unbind.antt =====
-- The removal of a binding: what it does to the views, and that the indexes still agree.
use vldb_controller.Base.{
  String, Option, none, some, ◌&&◌, not, ◌≡◌, refl, arith, if◌then◌else◌, inl, inr, Option-cases,
  ◌∙◌, ap,
}
use vldb_controller.Base.Order.{eqb, str_ord, eqb→eq}
use vldb_controller.BTreeMap
use vldb_controller.BTreeSet
use vldb_controller.BTreeSet.{BTreeSet}
use vldb_controller.Runtime.Fault.{BackendKind}
use vldb_controller.Runtime.Key.{BindingKey, key_ord}
use vldb_controller.Runtime.State.{
  BindingEntry, ClientState, SpaceState, ControllerState, same_kind,
}
use vldb_controller.Runtime.Bindings.{
  map_owned, modify_owner, map_bindings, untrack_resource, untrack_binding_locked,
  remove_binding_locked,
}
use vldb_controller.Runtime.Clients.{is_owner}
use vldb_controller.Registry.Views.{
  binding_at, attached_by_client, attached_by_space, owned_by, tracked, profile, SameCounters,
  SameCounters_refl, SameCounters_trans, owned_by_same, attached_by_client_same,
  attached_by_space_same, binding_at_same, tracked_same,
}
use vldb_controller.Registry.Invariant.{IsIndexed}
use vldb_controller.Registry.Untrack.{
  owned_by-disown, attached_by_client-map_owned, attached_by_space-map_bindings, binding_at-unbind,
  tracked-untrack, profile-map_owned,
}

-- Every list forgets the key, and nothing else changes.
pub record Unbound (kind : BackendKind) (key : BindingKey) (state after : ControllerState)
    : Type 0 where
  pub owned :
      (k : BackendKind) (c : String) (j : BindingKey)
      → owned_by k c j after ≡ (owned_by k c j state && not (same_kind kind k && eqb j key))
  pub bound :
      (k : BackendKind) (j : BindingKey)
      → binding_at k j after
        ≡ (if same_kind kind k && eqb j key then none else binding_at k j state)
  pub used :
      (k : BackendKind) (r : String) (j : BindingKey)
      → tracked k r j after ≡ (tracked k r j state && not (same_kind kind k && eqb j key))
  pub by_client : (c s : String) → attached_by_client c s after ≡ attached_by_client c s state
  pub by_space : (c s : String) → attached_by_space c s after ≡ attached_by_space c s state
  pub kept :
      (c : String) → profile (BTreeMap.get c after.clients) ≡ profile (BTreeMap.get c state.clients)
  pub streams : after.sqlite_query_streams ≡ state.sqlite_query_streams
  pub counters : SameCounters after state

module _ (kind : BackendKind) (rk : String) (key : BindingKey) (state : ControllerState) where
  pub clients-untrack :
      (keys : Option (BTreeSet BindingKey))
      → (untrack_resource kind rk key keys state).clients ≡ state.clients
  clients-untrack none = refl
  clients-untrack (some keys) = ground arith

  pub spaces-untrack :
      (keys : Option (BTreeSet BindingKey))
      → (untrack_resource kind rk key keys state).spaces ≡ state.spaces
  spaces-untrack none = refl
  spaces-untrack (some keys) = ground arith

  pub streams-untrack :
      (keys : Option (BTreeSet BindingKey))
      → (untrack_resource kind rk key keys state).sqlite_query_streams ≡ state.sqlite_query_streams
  streams-untrack none = refl
  streams-untrack (some keys) = ground arith

  pub counters-untrack :
      (keys : Option (BTreeSet BindingKey))
      → SameCounters (untrack_resource kind rk key keys state) state
  counters-untrack none = SameCounters_refl state
  counters-untrack (some keys) = ground arith

module _ (f : ClientState → ClientState) (state : ControllerState) where
  pub spaces-modify_owner : (o : Option String) → (modify_owner o f state).spaces ≡ state.spaces
  spaces-modify_owner none = refl
  spaces-modify_owner (some owner) = refl

  pub resources-modify_owner :
      (o : Option String) → (modify_owner o f state).resources ≡ state.resources
  resources-modify_owner none = refl
  resources-modify_owner (some owner) = refl

  pub streams-modify_owner :
      (o : Option String)
      → (modify_owner o f state).sqlite_query_streams ≡ state.sqlite_query_streams
  streams-modify_owner none = refl
  streams-modify_owner (some owner) = refl

  pub counters-modify_owner : (o : Option String) → SameCounters (modify_owner o f state) state
  counters-modify_owner none = SameCounters_refl state
  counters-modify_owner (some owner) = (refl, refl, refl, refl)

-- A key with no binding is in no list.
module _ (kind : BackendKind) (key : BindingKey) (state : ControllerState)
    (h : IsIndexed state) where
  Unbound-absent : binding_at kind key state ≡ none → Unbound kind key state state
  Unbound-absent e = record {
    owned = λ k c j. ground (arith, h.ownership k c j, eqb→eq j key);
    bound = λ k j. ground (arith, eqb→eq j key);
    used = λ k r j. ground (arith, h.usage k r j, eqb→eq j key);
    by_client = λ c s. refl;
    by_space = λ c s. refl;
    kept = λ c. refl;
    streams = refl;
    counters = SameCounters_refl state;
  }

  module _ (space : SpaceState) (entry : BindingEntry)
      (there : BTreeMap.get key.space_id state.spaces ≡ some space)
      (bound : BTreeMap.get key.binding_id (space.bindings kind) ≡ some entry) where
    abbrev taken : ControllerState
    taken = record state {
      spaces =
          BTreeMap.modify key.space_id (map_bindings (BTreeMap.remove key.binding_id) kind)
            state.spaces;
    }

    abbrev disowned : ControllerState
    disowned = modify_owner entry.owner_client_id (map_owned (BTreeSet.remove key) kind) taken

    found : binding_at kind key state ≡ some entry
    unfolding binding_at
    found = rw there bound

    forgotten :
        (k : BackendKind) (c : String) (j : BindingKey)
        → (owned_by k c j taken
            && not (same_kind kind k && eqb j key && is_owner c entry.owner_client_id))
          ≡ (owned_by k c j state && not (same_kind kind k && eqb j key))
    forgotten k c j =
        rw (owned_by_same taken state k c j refl)
          (ground (arith, h.ownership k c j, eqb→eq j key, found))

    unbound :
        (k : BackendKind) (j : BindingKey)
        → binding_at k j taken
          ≡ (if same_kind kind k && eqb j key then none else binding_at k j state)
    unfolding binding_at
    unbound k j = binding_at-unbind kind key state.spaces k j

    unused :
        (k : BackendKind) (r : String) (j : BindingKey)
        → (tracked k r j disowned
            && not (same_kind kind k && eqb j key && eqb r entry.resource_key))
          ≡ (tracked k r j state && not (same_kind kind k && eqb j key))
    unused k r j =
        rw
          (tracked_same disowned state k r j (resources-modify_owner _ taken entry.owner_client_id))
          (ground (arith, h.usage k r j, eqb→eq j key, found))

    still_attached : (c s : String) → attached_by_space c s taken ≡ attached_by_space c s state
    unfolding attached_by_space
    still_attached c s =
        attached_by_space-map_bindings kind key (BTreeMap.remove key.binding_id) key.space_id
          state.spaces c s

    abbrev rk : String
    rk = entry.resource_key

    abbrev keys : Option (BTreeSet BindingKey)
    keys = BTreeMap.get rk (disowned.resources kind)

    Unbound-present : Unbound kind key state (untrack_binding_locked kind taken key entry)
    unfolding untrack_binding_locked
    Unbound-present = record {
      owned = λ k c j.
          owned_by_same _ _ k c j (clients-untrack kind rk key disowned keys)
          ∙ owned_by-disown kind key taken entry.owner_client_id k c j
          ∙ forgotten k c j;
      bound = λ k j.
          binding_at_same _ _ k j (
            spaces-untrack kind rk key disowned keys
            ∙ spaces-modify_owner _ taken entry.owner_client_id)
          ∙ unbound k j;
      used = λ k r j. tracked-untrack kind key disowned rk keys k r j refl ∙ unused k r j;
      by_client = λ c s.
          attached_by_client_same _ _ c s (clients-untrack kind rk key disowned keys)
          ∙ attached_by_client-map_owned kind key (BTreeSet.remove key) taken entry.owner_client_id
              c s
          ∙ attached_by_client_same taken state c s refl;
      by_space = λ c s.
          attached_by_space_same _ _ c s (
            spaces-untrack kind rk key disowned keys
            ∙ spaces-modify_owner _ taken entry.owner_client_id)
          ∙ still_attached c s;
      kept = λ c.
          ap (λ m. profile (BTreeMap.get c m)) (clients-untrack kind rk key disowned keys)
          ∙ profile-map_owned kind key (BTreeSet.remove key) taken entry.owner_client_id c;
      streams =
          streams-untrack kind rk key disowned keys
          ∙ streams-modify_owner _ taken entry.owner_client_id;
      counters =
          SameCounters_trans (untrack_resource kind rk key keys disowned) disowned state
            (counters-untrack kind rk key disowned keys)
            (counters-modify_owner _ taken entry.owner_client_id);
    }

  -- Whether or not there is a binding to remove.
  pub Unbound-remove : Unbound kind key state (remove_binding_locked kind state key).1
  unfolding remove_binding_locked binding_at
  Unbound-remove = elim (Option-cases (BTreeMap.get key.space_id state.spaces)) [
    | inl e ↦ rw (e, remove_binding_locked) (Unbound-absent (rw e refl))
    | inr (space, e) ↦ elim (Option-cases (BTreeMap.get key.binding_id (space.bindings kind))) [
      | inl f ↦ rw (e, f, remove_binding_locked) (Unbound-absent (rw e f))
      | inr (entry, f) ↦ rw (e, f, remove_binding_locked) (Unbound-present space entry e f)
    ]
  ]
