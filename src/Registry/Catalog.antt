-- ===== src/Registry/Catalog.antt =====
-- The catalog of resources stays in order when a key is taken off a resource or a binding goes.
use vldb_controller.Base.{
  String, Option, none, some, true, ◌≡◌, arith, is_some, inl, inr, Option-cases,
}
use vldb_controller.Base.Order.{str_ord}
use vldb_controller.BTreeMap
use vldb_controller.BTreeSet
use vldb_controller.BTreeSet.{BTreeSet}
use vldb_controller.Runtime.Fault.{BackendKind}
use vldb_controller.Runtime.Key.{BindingKey, key_ord}
use vldb_controller.Runtime.State.{BindingEntry, ControllerState, put}
use vldb_controller.Runtime.Bindings.{
  map_owned, modify_owner, untrack_resource, untrack_binding_locked, remove_binding_locked,
}
use vldb_controller.Registry.Invariant.{IsCatalog, is_inhabited}

-- The three parts of the catalog's order, at one resource of one kind.
abbrev pub Inhabited : ControllerState → BackendKind → String → Type 0
Inhabited state k r = is_inhabited (BTreeMap.get r (state.resources k)) ≡ true

abbrev pub Configured : ControllerState → BackendKind → String → Type 0
Configured state k r =
    is_some (BTreeMap.get r (state.resource_backends k))
    ≡ is_some (BTreeMap.get r (state.resource_configs k))

abbrev pub InUse : ControllerState → BackendKind → String → Type 0
InUse state k r =
    is_some (BTreeMap.get r (state.resource_backends k)) ≡ true
    → is_some (BTreeMap.get r (state.resources k)) ≡ true

module _ (kind : BackendKind) (rk : String) (key : BindingKey) (state : ControllerState)
    (k : BackendKind) (r : String) where
  Inhabited-untrack_resource :
      (keys : Option (BTreeSet BindingKey))
      → Inhabited state k r
      → Inhabited (untrack_resource kind rk key keys state) k r
  unfolding put
  Inhabited-untrack_resource none c = c
  Inhabited-untrack_resource (some keys) c = ground (
    arith,
    BTreeMap.get-remove r rk (state.resources kind),
    BTreeMap.get-insert r rk (BTreeSet.remove key keys) (state.resources kind),
  )

  Configured-untrack_resource :
      (keys : Option (BTreeSet BindingKey))
      → Configured state k r
      → Configured (untrack_resource kind rk key keys state) k r
  unfolding put
  Configured-untrack_resource none c = c
  Configured-untrack_resource (some keys) c = ground (
    arith,
    BTreeMap.get-remove r rk (state.resource_backends kind),
    BTreeMap.get-remove r rk (state.resource_configs kind),
  )

  InUse-untrack_resource :
      (keys : Option (BTreeSet BindingKey))
      → InUse state k r
      → InUse (untrack_resource kind rk key keys state) k r
  unfolding put
  InUse-untrack_resource none c = c
  InUse-untrack_resource (some keys) c = λ h. ground (
    arith,
    BTreeMap.get-remove r rk (state.resources kind),
    BTreeMap.get-insert r rk (BTreeSet.remove key keys) (state.resources kind),
    BTreeMap.get-remove r rk (state.resource_backends kind),
  )

-- The catalog reads three fields.
pub IsCatalog-same :
    (s t : ControllerState)
    → s.resources ≡ t.resources
    → s.resource_backends ≡ t.resource_backends
    → s.resource_configs ≡ t.resource_configs
    → IsCatalog s
    → IsCatalog t
IsCatalog-same s t e f g c = record {
  inhabited = λ k r. rw (← e) (c.inhabited k r);
  configured = λ k r. rw (← f, ← g) (c.configured k r);
  in_use = λ k r. rw (← f, ← e) (c.in_use k r);
}

module _ (kind : BackendKind) (key : BindingKey) (entry : BindingEntry) (state : ControllerState)
    (k : BackendKind) (r : String) where
  abbrev disowned : ControllerState
  disowned = modify_owner entry.owner_client_id (map_owned (BTreeSet.remove key) kind) state

  abbrev users : Option (BTreeSet BindingKey)
  users = BTreeMap.get entry.resource_key (disowned.resources kind)

  pub Inhabited-untrack :
      Inhabited state k r → Inhabited (untrack_binding_locked kind state key entry) k r
  unfolding untrack_binding_locked
  Inhabited-untrack c =
      Inhabited-untrack_resource kind entry.resource_key key disowned k r users
        (go entry.owner_client_id)
    where
      go :
          (o : Option String)
          → Inhabited (modify_owner o (map_owned (BTreeSet.remove key) kind) state) k r
      go none = c
      go (some owner) = c

  pub Configured-untrack :
      Configured state k r → Configured (untrack_binding_locked kind state key entry) k r
  unfolding untrack_binding_locked
  Configured-untrack c =
      Configured-untrack_resource kind entry.resource_key key disowned k r users
        (go entry.owner_client_id)
    where
      go :
          (o : Option String)
          → Configured (modify_owner o (map_owned (BTreeSet.remove key) kind) state) k r
      go none = c
      go (some owner) = c

  pub InUse-untrack : InUse state k r → InUse (untrack_binding_locked kind state key entry) k r
  unfolding untrack_binding_locked
  InUse-untrack c =
      InUse-untrack_resource kind entry.resource_key key disowned k r users
        (go entry.owner_client_id)
    where
      go :
          (o : Option String)
          → InUse (modify_owner o (map_owned (BTreeSet.remove key) kind) state) k r
      go none = c
      go (some owner) = c

pub IsCatalog-remove :
    (kind : BackendKind) (key : BindingKey) (state : ControllerState)
    → IsCatalog state
    → IsCatalog (remove_binding_locked kind state key).1
unfolding remove_binding_locked
IsCatalog-remove kind key state c = elim (Option-cases (BTreeMap.get key.space_id state.spaces)) [
  | inl e ↦ rw (e, remove_binding_locked) c
  | inr (space, e) ↦ elim (Option-cases (BTreeMap.get key.binding_id (space.bindings kind))) [
    | inl f ↦ rw (e, f, remove_binding_locked) c
    | inr (entry, f) ↦
        rw (e, f, remove_binding_locked)
          (record {
            inhabited = λ k r. Inhabited-untrack kind key entry _ k r (c.inhabited k r);
            configured = λ k r. Configured-untrack kind key entry _ k r (c.configured k r);
            in_use = λ k r. InUse-untrack kind key entry _ k r (c.in_use k r);
          })
  ]
]
