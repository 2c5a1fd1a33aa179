-- ===== src/Registry/Forget.antt =====
-- controller/src/core/runtime.rs: what forgetting the previous entry of a key does to the views.
use vldb_controller.Base.{String, Option, none, some, ◌&&◌, not, ◌≡◌, refl, arith, ◌∙◌, ap}
use vldb_controller.Base.Order.{eqb, str_ord}
use vldb_controller.BTreeMap
use vldb_controller.BTreeMap.{BTreeMap}
use vldb_controller.BTreeSet
use vldb_controller.BTreeSet.{BTreeSet}
use vldb_controller.Runtime.Fault.{BackendKind}
use vldb_controller.Runtime.Key.{BindingKey, key_ord}
use vldb_controller.Runtime.State.{BindingEntry, ControllerState, same_kind}
use vldb_controller.Runtime.Access.{owner_of}
use vldb_controller.Runtime.Bindings.{
  map_owned, modify_owner, untrack_resource, untrack_binding_locked,
}
use vldb_controller.Runtime.Enable.{untrack_previous}
use vldb_controller.Runtime.Clients.{is_owner}
use vldb_controller.Registry.Views.{
  attached_by_client, owned_by, tracked, uses, profile, SameCounters, SameCounters_trans,
  owned_by_same, attached_by_client_same, tracked_same,
}
use vldb_controller.Registry.Untrack.{
  owned_by-disown, attached_by_client-map_owned, tracked-untrack, profile-map_owned,
}
use vldb_controller.Registry.Unbind.{
  clients-untrack, spaces-untrack, streams-untrack, counters-untrack, spaces-modify_owner,
  resources-modify_owner, streams-modify_owner, counters-modify_owner,
}
use vldb_controller.Registry.Catalog.{
  Inhabited, Configured, InUse, Inhabited-untrack, Configured-untrack, InUse-untrack,
}

-- The effect of forgetting an old entry of the key on the two lists that name it.
pub record Forgotten (kind : BackendKind) (key : BindingKey) (previous : Option BindingEntry)
    (state after : ControllerState) : Type 0 where
  pub owned :
      (k : BackendKind) (c : String) (j : BindingKey)
      → owned_by k c j after ≡ (
          owned_by k c j state
          && not (same_kind kind k && eqb j key && is_owner c (owner_of previous)))
  pub used :
      (k : BackendKind) (r : String) (j : BindingKey)
      → tracked k r j after
        ≡ (tracked k r j state && not (same_kind kind k && eqb j key && uses r previous))
  pub spaces : after.spaces ≡ state.spaces
  pub by_client : (c s : String) → attached_by_client c s after ≡ attached_by_client c s state
  pub kept :
      (c : String) → profile (BTreeMap.get c after.clients) ≡ profile (BTreeMap.get c state.clients)
  pub streams : after.sqlite_query_streams ≡ state.sqlite_query_streams
  pub counters : SameCounters after state
  pub inhabited : (k : BackendKind) (r : String) → Inhabited state k r → Inhabited after k r
  pub configured : (k : BackendKind) (r : String) → Configured state k r → Configured after k r
  pub in_use : (k : BackendKind) (r : String) → InUse state k r → InUse after k r

module _ (kind : BackendKind) (key : BindingKey) (state : ControllerState) where
  module _ (entry : BindingEntry) where
    abbrev disowned : ControllerState
    disowned = modify_owner entry.owner_client_id (map_owned (BTreeSet.remove key) kind) state

    abbrev users : Option (BTreeSet BindingKey)
    users = BTreeMap.get entry.resource_key (disowned.resources kind)

    abbrev untracked : ControllerState
    untracked = untrack_resource kind entry.resource_key key users disowned

    Forgotten-untrack :
        Forgotten kind key (some entry) state (untrack_binding_locked kind state key entry)
    unfolding untrack_binding_locked
    Forgotten-untrack = record {
      owned = λ k c j.
          owned_by_same untracked disowned k c j
            (clients-untrack kind entry.resource_key key disowned users)
          ∙ owned_by-disown kind key state entry.owner_client_id k c j;
      used = λ k r j.
          tracked-untrack kind key disowned entry.resource_key users k r j refl
          ∙ ap (λ b. b && not (same_kind kind k && eqb j key && eqb r entry.resource_key))
              (tracked_same disowned state k r j
                (resources-modify_owner _ state entry.owner_client_id));
      spaces =
          spaces-untrack kind entry.resource_key key disowned users
          ∙ spaces-modify_owner _ state entry.owner_client_id;
      by_client = λ c s.
          attached_by_client_same untracked disowned c s
            (clients-untrack kind entry.resource_key key disowned users)
          ∙ attached_by_client-map_owned kind key (BTreeSet.remove key) state entry.owner_client_id
              c s;
      kept = λ c.
          ap (λ m. profile (BTreeMap.get c m))
            (clients-untrack kind entry.resource_key key disowned users)
          ∙ profile-map_owned kind key (BTreeSet.remove key) state entry.owner_client_id c;
      streams =
          streams-untrack kind entry.resource_key key disowned users
          ∙ streams-modify_owner _ state entry.owner_client_id;
      counters =
          SameCounters_trans untracked disowned state
            (counters-untrack kind entry.resource_key key disowned users)
            (counters-modify_owner _ state entry.owner_client_id);
      inhabited = Inhabited-untrack kind key entry state;
      configured = Configured-untrack kind key entry state;
      in_use = InUse-untrack kind key entry state;
    }

  pub Forgotten-previous :
      (previous : Option BindingEntry)
      → Forgotten kind key previous state (untrack_previous kind key previous state)
  Forgotten-previous none = record {
    owned = λ k c j. ground arith;
    used = λ k r j. ground arith;
    spaces = refl;
    by_client = λ c s. refl;
    kept = λ c. refl;
    streams = refl;
    counters = (refl, refl, refl, refl);
    inhabited = λ k r c. c;
    configured = λ k r c. c;
    in_use = λ k r c. c;
  }
  Forgotten-previous (some entry) = Forgotten-untrack entry
