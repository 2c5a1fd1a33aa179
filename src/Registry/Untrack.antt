-- ===== src/Registry/Untrack.antt =====
-- What each step of the removal of a binding does to the views.
use mathlib.Core.Option
use vldb_controller.Base.{
  String, Option, none, some, Bool, true, false, ◌&&◌, not, ◌≡◌, refl, arith, if◌then◌else◌,
}
use vldb_controller.Base.Order.{eqb, str_ord, eqb→eq}
use vldb_controller.BTreeMap
use vldb_controller.BTreeMap.{BTreeMap}
use vldb_controller.BTreeSet
use vldb_controller.BTreeSet.{BTreeSet}
use vldb_controller.Runtime.Fault.{BackendKind}
use vldb_controller.Runtime.Key.{BindingKey, key_ord}
use vldb_controller.Runtime.State.{
  BindingEntry, ClientState, SpaceState, ControllerState, put, same_kind,
}
use vldb_controller.Runtime.Bindings.{map_owned, modify_owner, map_bindings, untrack_resource}
use vldb_controller.Runtime.Clients.{is_owner}
use vldb_controller.Registry.Views.{
  binding_in, attached_by_client, owned_by, tracked, key_eqb, client_owns, client_attached,
  space_attached, profile,
}

module _ (kind : BackendKind) (key : BindingKey) where
  pub client_owns-disown :
      (b : Bool) (k : BackendKind) (j : BindingKey) (o : Option ClientState)
      → client_owns k j (if b then Option.map (map_owned (BTreeSet.remove key) kind) o else o)
        ≡ (client_owns k j o && not (same_kind kind k && eqb j key && b))
  unfolding put
  client_owns-disown b k j none = ground arith
  client_owns-disown b k j (some client) =
      ground (arith, BTreeSet.contains-remove j key (client.owned_binding_keys kind))

  pub client_attached-map :
      (b : Bool) (f : BTreeSet BindingKey → BTreeSet BindingKey) (s : String)
      (o : Option ClientState)
      → client_attached s (if b then Option.map (map_owned f kind) o else o) ≡ client_attached s o
  client_attached-map b f s none = ground arith
  client_attached-map true f s (some client) = refl
  client_attached-map false f s (some client) = refl

  pub owned_by-disown :
      (state : ControllerState) (owner : Option String) (k : BackendKind) (c : String)
      (j : BindingKey)
      → owned_by k c j (modify_owner owner (map_owned (BTreeSet.remove key) kind) state)
        ≡ (owned_by k c j state && not (same_kind kind k && eqb j key && is_owner c owner))
  unfolding owned_by
  owned_by-disown state none k c j = ground arith
  owned_by-disown state (some owner) k c j =
      rw (BTreeMap.get-modify c owner (map_owned (BTreeSet.remove key) kind) state.clients)
        (client_owns-disown (eqb c owner) k j (BTreeMap.get c state.clients))

  pub attached_by_client-map_owned :
      (f : BTreeSet BindingKey → BTreeSet BindingKey) (state : ControllerState)
      (owner : Option String) (c s : String)
      → attached_by_client c s (modify_owner owner (map_owned f kind) state)
        ≡ attached_by_client c s state
  unfolding attached_by_client
  attached_by_client-map_owned f state none c s = refl
  attached_by_client-map_owned f state (some owner) c s =
      rw (BTreeMap.get-modify c owner (map_owned f kind) state.clients)
        (client_attached-map (eqb c owner) f s (BTreeMap.get c state.clients))

  profile-map :
      (b : Bool) (f : BTreeSet BindingKey → BTreeSet BindingKey) (o : Option ClientState)
      → profile (if b then Option.map (map_owned f kind) o else o) ≡ profile o
  profile-map b f none = ground arith
  profile-map true f (some client) = refl
  profile-map false f (some client) = refl

  pub profile-map_owned :
      (f : BTreeSet BindingKey → BTreeSet BindingKey) (state : ControllerState)
      (owner : Option String) (c : String)
      → profile (BTreeMap.get c (modify_owner owner (map_owned f kind) state).clients)
        ≡ profile (BTreeMap.get c state.clients)
  profile-map_owned f state none c = refl
  profile-map_owned f state (some owner) c =
      rw (BTreeMap.get-modify c owner (map_owned f kind) state.clients)
        (profile-map (eqb c owner) f (BTreeMap.get c state.clients))

  binding_in-unbind :
      (b : Bool) (k : BackendKind) (j : BindingKey) (o : Option SpaceState)
      → binding_in k j
          (if b then Option.map (map_bindings (BTreeMap.remove key.binding_id) kind) o else o)
        ≡ (if same_kind kind k && (b && eqb j.binding_id key.binding_id)
            then none
            else binding_in k j o)
  unfolding put
  binding_in-unbind b k j none = ground arith
  binding_in-unbind b k j (some space) =
      ground (arith, BTreeMap.get-remove j.binding_id key.binding_id (space.bindings kind))

  space_attached-map :
      (b : Bool) (f : BTreeMap String BindingEntry → BTreeMap String BindingEntry) (c : String)
      (o : Option SpaceState)
      → space_attached c (if b then Option.map (map_bindings f kind) o else o) ≡ space_attached c o
  space_attached-map b f c none = ground arith
  space_attached-map true f c (some space) = refl
  space_attached-map false f c (some space) = refl

  pub attached_by_space-map_bindings :
      (f : BTreeMap String BindingEntry → BTreeMap String BindingEntry) (s : String)
      (spaces : BTreeMap String SpaceState) (c t : String)
      → space_attached c (BTreeMap.get t (BTreeMap.modify s (map_bindings f kind) spaces))
        ≡ space_attached c (BTreeMap.get t spaces)
  attached_by_space-map_bindings f s spaces c t =
      rw (BTreeMap.get-modify t s (map_bindings f kind) spaces)
        (space_attached-map (eqb t s) f c (BTreeMap.get t spaces))

  pub binding_at-unbind :
      (spaces : BTreeMap String SpaceState) (k : BackendKind) (j : BindingKey)
      → binding_in k j (
          BTreeMap.get j.space_id (
            BTreeMap.modify key.space_id
              (map_bindings (BTreeMap.remove key.binding_id) kind)
              spaces))
        ≡ (if same_kind kind k && eqb j key
            then none
            else binding_in k j (BTreeMap.get j.space_id spaces))
  binding_at-unbind spaces k j =
      rw
        (
          BTreeMap.get-modify j.space_id key.space_id
              (map_bindings (BTreeMap.remove key.binding_id) kind) spaces,
          key_eqb j key,
        )
        (binding_in-unbind (eqb j.space_id key.space_id) k j (BTreeMap.get j.space_id spaces))

  module _ (state : ControllerState) (rk : String) where
    pub tracked-untrack :
        (keys : Option (BTreeSet BindingKey)) (k : BackendKind) (r : String) (j : BindingKey)
        → keys ≡ BTreeMap.get rk (state.resources kind)
        → tracked k r j (untrack_resource kind rk key keys state)
          ≡ (tracked k r j state && not (same_kind kind k && eqb j key && eqb r rk))
    unfolding tracked put
    tracked-untrack none k r j e = ground (arith, eqb→eq r rk)
    tracked-untrack (some keys) k r j e = ground (
      arith,
      eqb→eq r rk,
      BTreeMap.get-remove r rk (state.resources kind),
      BTreeMap.get-insert r rk (BTreeSet.remove key keys) (state.resources kind),
      BTreeSet.contains-remove j key keys,
      λ (h : BTreeSet.is_empty (BTreeSet.remove key keys) ≡ true).
          BTreeSet.contains_of_is_empty (BTreeSet.remove key keys) h j,
    )
