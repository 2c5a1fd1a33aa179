-- ===== src/Registry/Leave.antt =====
-- The rest of `remove_client_locked`: the client's entry, its attachments and the spaces that nobody
-- uses any more.
use mathlib.Core.Option
use vldb_controller.Base.{
  String, Option, none, some, Bool, true, false, ◌&&◌, not, ◌≡◌, refl, arith, if◌then◌else◌, ◌∙◌,
  List, [], ◌∷◌,
}
use vldb_controller.Base.Order.{eqb, str_ord}
use vldb_controller.BTreeMap
use vldb_controller.BTreeMap.{BTreeMap}
use vldb_controller.BTreeMap.Entries.{listed, holds_at}
use vldb_controller.BTreeSet
use vldb_controller.Runtime.Fault.{BackendKind, sqlite, lancedb}
use vldb_controller.Runtime.Key.{BindingKey}
use vldb_controller.Runtime.State.{SpaceState, ControllerState}
use vldb_controller.Runtime.Clients.{
  is_idle, remove_spaces, cleanup_empty_spaces_locked, detach_all, drop_attached_client,
}
use vldb_controller.Registry.Views.{
  binding_in, binding_at, attached_by_space, space_attached, SameCounters, SameCounters_refl,
}

-- The fields other than the spaces.
pub record SameButSpaces (s t : ControllerState) : Type 0 where
  pub clients : s.clients ≡ t.clients
  pub resources : s.resources ≡ t.resources
  pub resource_backends : s.resource_backends ≡ t.resource_backends
  pub resource_configs : s.resource_configs ≡ t.resource_configs
  pub streams : s.sqlite_query_streams ≡ t.sqlite_query_streams
  pub counters : SameCounters s t

SameButSpaces-refl : (s : ControllerState) → SameButSpaces s s
SameButSpaces-refl s = record {
  clients = refl;
  resources = refl;
  resource_backends = refl;
  resource_configs = refl;
  streams = refl;
  counters = SameCounters_refl s;
}

module _ (client_id : String) where
  pub detach_all-same :
      (ids : List String) (state : ControllerState)
      → SameButSpaces (detach_all client_id ids state) state
  unfolding detach_all
  detach_all-same [] state = SameButSpaces-refl state
  detach_all-same (space_id ∷ rest) state =
      let r = detach_all-same rest (record state {
        spaces = BTreeMap.modify space_id (drop_attached_client client_id) state.spaces;
      }) in
      record {
        clients = r.clients;
        resources = r.resources;
        resource_backends = r.resource_backends;
        resource_configs = r.resource_configs;
        streams = r.streams;
        counters = r.counters;
      }

  binding_in-drop :
      (b : Bool) (k : BackendKind) (j : BindingKey) (o : Option SpaceState)
      → binding_in k j (if b then Option.map (drop_attached_client client_id) o else o)
        ≡ binding_in k j o
  binding_in-drop b k j none = ground arith
  binding_in-drop true k j (some space) = refl
  binding_in-drop false k j (some space) = refl

  space_attached-drop :
      (b : Bool) (d : String) (o : Option SpaceState)
      → space_attached d (if b then Option.map (drop_attached_client client_id) o else o)
        ≡ (space_attached d o && not (b && eqb d client_id))
  space_attached-drop b d none = ground arith
  space_attached-drop b d (some space) =
      ground (arith, BTreeSet.contains-remove d client_id space.attached_clients)

  pub binding_at-detach_all :
      (ids : List String) (state : ControllerState) (k : BackendKind) (j : BindingKey)
      → binding_at k j (detach_all client_id ids state) ≡ binding_at k j state
  unfolding detach_all binding_at
  binding_at-detach_all [] state k j = refl
  binding_at-detach_all (space_id ∷ rest) state k j =
      binding_at-detach_all rest _ k j
      ∙ rw (BTreeMap.get-modify j.space_id space_id (drop_attached_client client_id) state.spaces)
          (binding_in-drop (eqb j.space_id space_id) k j (BTreeMap.get j.space_id state.spaces))

  attached-detach_one :
      (space_id : String) (spaces : BTreeMap String SpaceState) (d s : String)
      → space_attached d
          (BTreeMap.get s (BTreeMap.modify space_id (drop_attached_client client_id) spaces))
        ≡ (space_attached d (BTreeMap.get s spaces) && not (eqb s space_id && eqb d client_id))
  attached-detach_one space_id spaces d s =
      rw (BTreeMap.get-modify s space_id (drop_attached_client client_id) spaces)
        (space_attached-drop (eqb s space_id) d (BTreeMap.get s spaces))

  pub attached-detach_all :
      (ids : List String) (state : ControllerState) (d s : String)
      → attached_by_space d s (detach_all client_id ids state)
        ≡ (attached_by_space d s state && not (eqb d client_id && listed s ids))
  unfolding detach_all attached_by_space listed
  attached-detach_all [] state d s = ground arith
  attached-detach_all (space_id ∷ rest) state d s =
      attached-detach_all rest _ d s
      ∙ rw (attached-detach_one space_id state.spaces d s) (ground arith)

pub remove_spaces-same :
    (ids : List String) (state : ControllerState) → SameButSpaces (remove_spaces ids state) state
unfolding remove_spaces
remove_spaces-same [] state = SameButSpaces-refl state
remove_spaces-same (space_id ∷ rest) state =
    let r =
      remove_spaces-same rest (record state { spaces = BTreeMap.remove space_id state.spaces }) in
    record {
      clients = r.clients;
      resources = r.resources;
      resource_backends = r.resource_backends;
      resource_configs = r.resource_configs;
      streams = r.streams;
      counters = r.counters;
    }

get-remove_spaces :
    (ids : List String) (state : ControllerState) (s : String)
    → BTreeMap.get s (remove_spaces ids state).spaces
      ≡ (if listed s ids then none else BTreeMap.get s state.spaces)
unfolding remove_spaces listed
get-remove_spaces [] state s = refl
get-remove_spaces (space_id ∷ rest) state s = ground (
  arith,
  get-remove_spaces rest (record state { spaces = BTreeMap.remove space_id state.spaces }) s,
  BTreeMap.get-remove s space_id state.spaces,
)

abbrev pub idle_at : Option SpaceState → Bool
idle_at none = false
idle_at (some space) = is_idle space

-- The idle spaces go, and no other.
pub get-cleanup :
    (state : ControllerState) (s : String)
    → BTreeMap.get s (cleanup_empty_spaces_locked state).spaces
      ≡ (if idle_at (BTreeMap.get s state.spaces) then none else BTreeMap.get s state.spaces)
unfolding cleanup_empty_spaces_locked
get-cleanup state s =
    get-remove_spaces _ state s
    ∙ rw (BTreeMap.listed-filter_keys s (λ id space. is_idle space) state.spaces)
        (go (BTreeMap.get s state.spaces))
  where
    go :
        (o : Option SpaceState)
        → (if holds_at (λ id space. is_idle space) s o then none else o)
          ≡ (if idle_at o then none else o)
    go none = refl
    go (some space) = refl

-- A space that goes had neither a client nor a binding.
binding_in-idle :
    (k : BackendKind) (j : BindingKey) (o : Option SpaceState)
    → binding_in k j (if idle_at o then none else o) ≡ binding_in k j o
unfolding is_idle
binding_in-idle k j none = refl
binding_in-idle sqlite j (some space) = ground (
  arith,
  λ (e : BTreeMap.is_empty (space.bindings sqlite) ≡ true).
      BTreeMap.get_of_is_empty (space.bindings sqlite) e j.binding_id,
)
binding_in-idle lancedb j (some space) = ground (
  arith,
  λ (e : BTreeMap.is_empty (space.bindings lancedb) ≡ true).
      BTreeMap.get_of_is_empty (space.bindings lancedb) e j.binding_id,
)

space_attached-idle :
    (d : String) (o : Option SpaceState)
    → space_attached d (if idle_at o then none else o) ≡ space_attached d o
unfolding is_idle
space_attached-idle d none = refl
space_attached-idle d (some space) = ground (
  arith,
  λ (e : BTreeSet.is_empty space.attached_clients ≡ true).
      BTreeSet.contains_of_is_empty space.attached_clients e d,
)

pub binding_at-cleanup :
    (state : ControllerState) (k : BackendKind) (j : BindingKey)
    → binding_at k j (cleanup_empty_spaces_locked state) ≡ binding_at k j state
unfolding binding_at
binding_at-cleanup state k j = rw (get-cleanup state j.space_id) (binding_in-idle k j _)

pub attached-cleanup :
    (state : ControllerState) (d s : String)
    → attached_by_space d s (cleanup_empty_spaces_locked state) ≡ attached_by_space d s state
unfolding attached_by_space
attached-cleanup state d s = rw (get-cleanup state s) (space_attached-idle d _)
