-- ===== src/Registry/Replace.antt =====
-- controller/src/core/runtime.rs: a binding takes the place of the one that had its key, and the
-- registry stays consistent.
use vldb_controller.Base.{
  String, Option, some, true, false, ◌&&◌, ◌||◌, ◌≡◌, refl, arith, is_some, if◌then◌else◌, ◌∙◌, sym,
}
use vldb_controller.Base.Order.{eqb, str_ord, eqb→eq}
use vldb_controller.BTreeMap
use vldb_controller.BTreeMap.{BTreeMap}
use vldb_controller.BTreeSet
use vldb_controller.BTreeSet.{BTreeSet}
use vldb_controller.Runtime.Fault.{BackendKind}
use vldb_controller.Runtime.Key.{BindingKey, key_ord, binding_key}
use vldb_controller.Runtime.State.{Backend, BindingEntry, SpaceState, ControllerState, same_kind}
use vldb_controller.Runtime.Bindings.{map_owned, modify_owner, map_bindings, track_binding_locked}
use vldb_controller.Runtime.Enable.{EnableRequest, untrack_previous, replace_binding}
use vldb_controller.Registry.Views.{
  binding_at, attached_by_client, attached_by_space, owned_by, profile, SameCounters, owned_by_same,
  attached_by_client_same, attached_by_space_same, binding_at_same, tracked_same,
}
use vldb_controller.Registry.Invariant.{
  IsIndexed, IsSymmetric, OwnersAttached, HasOwners, IsConsistent,
}
use vldb_controller.Registry.Untrack.{
  attached_by_client-map_owned, attached_by_space-map_bindings, profile-map_owned,
}
use vldb_controller.Registry.Forget.{Forgotten, Forgotten-previous}
use vldb_controller.Registry.Catalog.{Inhabited, Configured, InUse}
use vldb_controller.Registry.Track.{
  owned_by-own, binding_at-bind, tracked-track, Inhabited-track, InUse-track,
}

-- The key names the new entry, and every other binding, every attachment and every stream stays.
pub record Bound (kind : BackendKind) (key : BindingKey) (entry : BindingEntry)
    (state after : ControllerState) : Type 0 where
  pub bound :
      (k : BackendKind) (j : BindingKey)
      → binding_at k j after
        ≡ (if same_kind kind k && eqb j key then some entry else binding_at k j state)
  pub by_client : (c s : String) → attached_by_client c s after ≡ attached_by_client c s state
  pub by_space : (c s : String) → attached_by_space c s after ≡ attached_by_space c s state
  pub kept :
      (c : String) → profile (BTreeMap.get c after.clients) ≡ profile (BTreeMap.get c state.clients)
  pub streams : after.sqlite_query_streams ≡ state.sqlite_query_streams
  pub counters : SameCounters after state

module _ (kind : BackendKind) (request : EnableRequest) (owner : String) (backend : Backend)
    (space : SpaceState) (state : ControllerState)
    (there : BTreeMap.get request.space_id state.spaces ≡ some space) where
  abbrev key : BindingKey
  key = binding_key request.space_id request.binding_id

  abbrev pub entry : BindingEntry
  entry = record {
    owner_client_id = some owner;
    resource_key = request.resource_key;
    backend = backend;
  }

  abbrev previous : Option BindingEntry
  previous = BTreeMap.get request.binding_id (space.bindings kind)

  abbrev placed : ControllerState
  placed = record state {
    spaces =
        BTreeMap.modify request.space_id
          (map_bindings (BTreeMap.insert request.binding_id entry) kind) state.spaces;
  }

  abbrev forgotten : ControllerState
  forgotten = untrack_previous kind key previous placed

  abbrev final : ControllerState
  final = track_binding_locked kind forgotten key (some owner) request.resource_key

  abbrev owning : ControllerState
  owning = modify_owner (some owner) (map_owned (BTreeSet.insert key) kind) forgotten

  f : Forgotten kind key previous placed forgotten
  f = Forgotten-previous kind key placed previous

  previous_lem : binding_at kind key state ≡ previous
  unfolding binding_at
  previous_lem = rw there refl

  bound_placed :
      (k : BackendKind) (j : BindingKey)
      → binding_at k j placed
        ≡ (if same_kind kind k && eqb j key then some entry else binding_at k j state)
  unfolding binding_at
  bound_placed k j = binding_at-bind kind key entry state.spaces k j (rw there refl)

  by_space_placed : (c s : String) → attached_by_space c s placed ≡ attached_by_space c s state
  unfolding attached_by_space
  by_space_placed c s =
      attached_by_space-map_bindings kind key (BTreeMap.insert request.binding_id entry)
        request.space_id state.spaces c s

  kept_forgotten :
      (c : String)
      → profile (BTreeMap.get c forgotten.clients) ≡ profile (BTreeMap.get c state.clients)
  kept_forgotten c = f.kept c

  Bound-final : Bound kind key entry state final
  unfolding track_binding_locked
  Bound-final = record {
    bound = λ k j. binding_at_same final placed k j f.spaces ∙ bound_placed k j;
    by_client = λ c s.
        attached_by_client_same final owning c s refl
        ∙ attached_by_client-map_owned kind key (BTreeSet.insert key) forgotten (some owner) c s
        ∙ f.by_client c s
        ∙ attached_by_client_same placed state c s refl;
    by_space = λ c s. attached_by_space_same final placed c s f.spaces ∙ by_space_placed c s;
    kept =
        λ c. profile-map_owned kind key (BTreeSet.insert key) forgotten (some owner) c ∙ f.kept c;
    streams = f.streams;
    counters = f.counters;
  }

  owned_final :
      (k : BackendKind) (c : String) (j : BindingKey)
      → owned_by k c j final ≡ (
          owned_by k c j forgotten
          || (same_kind kind k
              && eqb j key
              && eqb c owner
              && is_some (BTreeMap.get c forgotten.clients)))
  unfolding track_binding_locked
  owned_final k c j =
      owned_by_same final owning k c j refl ∙ owned_by-own kind key forgotten owner k c j

  module _ (h : IsIndexed state) (reg : is_some (BTreeMap.get owner state.clients) ≡ true) where
    has_session :
        (c : String) → eqb c owner ≡ true → is_some (BTreeMap.get c forgotten.clients) ≡ true
    has_session c e = rw (eqb→eq c owner e) (ground (arith, kept_forgotten owner))

    IsIndexed-final : IsIndexed final
    IsIndexed-final = record {
      ownership = λ k c j. ground (
        arith,
        owned_final k c j,
        f.owned k c j,
        owned_by_same placed state k c j refl,
        Bound-final.bound k j,
        h.ownership k c j,
        previous_lem,
        eqb→eq j key,
        has_session c,
      );
      usage = λ k r j. ground (
        arith,
        tracked-track kind key forgotten owner request.resource_key k r j,
        f.used k r j,
        tracked_same placed state k r j refl,
        Bound-final.bound k j,
        h.usage k r j,
        previous_lem,
        eqb→eq j key,
      );
    }

    -- A backend that is registered for the new resource only counts as in use from now on.
    pub replace-IsConsistent :
        IsSymmetric state
        → OwnersAttached state
        → HasOwners state
        → ((k : BackendKind) (r : String) → Inhabited state k r)
        → ((k : BackendKind) (r : String) → Configured state k r)
        → ((k : BackendKind) (r : String)
            → (same_kind kind k && eqb r request.resource_key) ≡ false
            → InUse state k r)
        → attached_by_client owner request.space_id state ≡ true
        → IsConsistent (replace_binding kind request (some owner) backend space state)
          × Bound kind key entry state
              (replace_binding kind request (some owner) backend space state)
    unfolding replace_binding track_binding_locked
    replace-IsConsistent symmetric attached owners inhabited configured in_use here = (
      record {
        indexed = IsIndexed-final;
        catalog = record {
          inhabited = λ k r.
              Inhabited-track kind key forgotten owner request.resource_key k r
                (f.inhabited k r (inhabited k r));
          configured = λ k r. f.configured k r (configured k r);
          in_use = λ k r.
              InUse-track kind key forgotten owner request.resource_key k r
                (λ e. f.in_use k r (in_use k r e));
        };
        symmetric =
            λ c s. Bound-final.by_client c s ∙ symmetric c s ∙ sym (Bound-final.by_space c s);
        owners_attached = λ k c j o. Bound-final.by_client c j.space_id ∙ attached_final k c j o;
        owners = λ k j. ground (arith, Bound-final.bound k j, owners k j);
      },
      Bound-final,
    )
      where
        attached_final :
            (k : BackendKind) (c : String) (j : BindingKey)
            → owned_by k c j final ≡ true
            → attached_by_client c j.space_id state ≡ true
        attached_final k c j o = ground (
          arith,
          IsIndexed-final.ownership k c j,
          Bound-final.bound k j,
          h.ownership k c j,
          attached k c j,
          eqb→eq j key,
          eqb→eq c owner,
          here,
        )
