-- ===== src/Registry/Track.antt =====
-- What each step of enabling a backend does to the views.
use mathlib.Core.Option
use vldb_controller.Base.{
  String, Option, none, some, Bool, true, false, ◌&&◌, ◌||◌, ◌≡◌, refl, arith, is_some,
  if◌then◌else◌, Bool-cases, inl, inr,
}
use vldb_controller.Base.Order.{eqb, str_ord, eqb→eq}
use vldb_controller.BTreeMap
use vldb_controller.BTreeMap.{BTreeMap}
use vldb_controller.BTreeSet
use vldb_controller.BTreeSet.{BTreeSet}
use vldb_controller.Runtime.Fault.{BackendKind}
use vldb_controller.Runtime.Key.{BindingKey, key_ord}
use vldb_controller.Runtime.State.{
  BindingEntry, ClientState, SpaceState, ControllerState, put, same_kind,
}
use vldb_controller.Runtime.Bindings.{
  map_owned, modify_owner, map_bindings, keys_or_default, track_binding_locked,
}
use vldb_controller.Registry.Views.{binding_in, owned_by, tracked, key_eqb, client_owns}
use vldb_controller.Registry.Catalog.{Inhabited, InUse}

module _ (kind : BackendKind) (key : BindingKey) where
  client_owns-own :
      (b : Bool) (k : BackendKind) (j : BindingKey) (o : Option ClientState)
      → client_owns k j (if b then Option.map (map_owned (BTreeSet.insert key) kind) o else o)
        ≡ (client_owns k j o || (same_kind kind k && eqb j key && b && is_some o))
  unfolding put
  client_owns-own b k j none = ground arith
  client_owns-own b k j (some client) =
      ground (arith, BTreeSet.contains-insert j key (client.owned_binding_keys kind))

  pub owned_by-own :
      (state : ControllerState) (owner : String) (k : BackendKind) (c : String) (j : BindingKey)
      → owned_by k c j (modify_owner (some owner) (map_owned (BTreeSet.insert key) kind) state) ≡ (
          owned_by k c j state
          || (same_kind kind k
              && eqb j key
              && eqb c owner
              && is_some (BTreeMap.get c state.clients)))
  unfolding owned_by
  owned_by-own state owner k c j =
      rw (BTreeMap.get-modify c owner (map_owned (BTreeSet.insert key) kind) state.clients)
        (client_owns-own (eqb c owner) k j (BTreeMap.get c state.clients))

  module _ (entry : BindingEntry) where
    binding_in-bind :
        (b : Bool) (k : BackendKind) (j : BindingKey) (o : Option SpaceState)
        → (b ≡ true → is_some o ≡ true)
        → binding_in k j (
            if b
            then Option.map (map_bindings (BTreeMap.insert key.binding_id entry) kind) o
            else o)
          ≡ (if same_kind kind k && (b && eqb j.binding_id key.binding_id)
              then some entry
              else binding_in k j o)
    unfolding put
    binding_in-bind b k j none h = ground (arith, h)
    binding_in-bind b k j (some space) h =
        ground (arith, BTreeMap.get-insert j.binding_id key.binding_id entry (space.bindings kind))

    pub binding_at-bind :
        (spaces : BTreeMap String SpaceState) (k : BackendKind) (j : BindingKey)
        → is_some (BTreeMap.get key.space_id spaces) ≡ true
        → binding_in k j (
            BTreeMap.get j.space_id (
              BTreeMap.modify key.space_id
                (map_bindings (BTreeMap.insert key.binding_id entry) kind)
                spaces))
          ≡ (if same_kind kind k && eqb j key
              then some entry
              else binding_in k j (BTreeMap.get j.space_id spaces))
    binding_at-bind spaces k j h =
        rw
          (
            BTreeMap.get-modify j.space_id key.space_id
                (map_bindings (BTreeMap.insert key.binding_id entry) kind) spaces,
            key_eqb j key,
          )
          (binding_in-bind (eqb j.space_id key.space_id) k j (BTreeMap.get j.space_id spaces)
            (λ e. rw (eqb→eq j.space_id key.space_id e) h))

  module _ (state : ControllerState) (owner : String) (rk : String) where
    abbrev owning : ControllerState
    owning = modify_owner (some owner) (map_owned (BTreeSet.insert key) kind) state

    pub tracked-track :
        (k : BackendKind) (r : String) (j : BindingKey)
        → tracked k r j (track_binding_locked kind state key (some owner) rk)
          ≡ (tracked k r j state || (same_kind kind k && eqb j key && eqb r rk))
    unfolding tracked put track_binding_locked
    tracked-track k r j = go (BTreeMap.get rk (state.resources kind)) refl
      where
        go :
            (keys : Option (BTreeSet BindingKey))
            → BTreeMap.get rk (state.resources kind) ≡ keys
            → tracked k r j (track_binding_locked kind state key (some owner) rk)
              ≡ (tracked k r j state || (same_kind kind k && eqb j key && eqb r rk))
        go none e = ground (
          arith,
          eqb→eq r rk,
          BTreeMap.get-insert r rk (BTreeSet.insert key BTreeSet.new) (state.resources kind),
          BTreeSet.contains-insert j key BTreeSet.new,
          BTreeSet.contains-new j,
        )
        go (some keys) e = ground (
          arith,
          eqb→eq r rk,
          BTreeMap.get-insert r rk (BTreeSet.insert key keys) (state.resources kind),
          BTreeSet.contains-insert j key keys,
        )

    pub Inhabited-track :
        (k : BackendKind) (r : String)
        → Inhabited state k r
        → Inhabited (track_binding_locked kind state key (some owner) rk) k r
    unfolding put track_binding_locked
    Inhabited-track k r c = ground (
      arith,
      BTreeMap.get-insert r rk
          (BTreeSet.insert key (keys_or_default (BTreeMap.get rk (state.resources kind))))
          (state.resources kind),
      BTreeSet.is_empty-insert key (keys_or_default (BTreeMap.get rk (state.resources kind))),
    )

    -- The resource of the binding is in use from now on.
    pub InUse-track :
        (k : BackendKind) (r : String)
        → ((same_kind kind k && eqb r rk) ≡ false → InUse state k r)
        → InUse (track_binding_locked kind state key (some owner) rk) k r
    unfolding put track_binding_locked
    InUse-track k r c h = elim (Bool-cases (same_kind kind k && eqb r rk)) [
      | inl e ↦ ground (
        arith,
        BTreeMap.get-insert r rk
            (BTreeSet.insert key (keys_or_default (BTreeMap.get rk (state.resources kind))))
            (state.resources kind),
      )
      | inr e ↦ ground (
        arith,
        c e h,
        BTreeMap.get-insert r rk
            (BTreeSet.insert key (keys_or_default (BTreeMap.get rk (state.resources kind))))
            (state.resources kind),
      )
    ]
