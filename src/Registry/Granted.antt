-- ===== src/Registry/Granted.antt =====
-- controller/src/core/runtime.rs: who gets the backend of a binding.
use vldb_controller.Base.{
  String, Option, none, some, true, ◌≡◌, arith, inl, inr, Option-cases, ◌∙◌, ap, ◌≢◌, ◌↔◌,
}
use vldb_controller.Base.Order.{eqb→eq, eqb_refl, str_ord}
use vldb_controller.BTreeMap
use vldb_controller.BTreeSet
use vldb_controller.Runtime.Fault.{BackendKind, ok}
use vldb_controller.Runtime.Key.{BindingKey, binding_key, key_ord}
use vldb_controller.Runtime.State.{Backend, BindingEntry, SpaceState, ControllerState}
use vldb_controller.Runtime.Keys.{normalize_client_id}
use vldb_controller.Runtime.Access.{
  ensure_space_access_locked, ensure_binding_access_locked, binding_owner_client_id,
  ensure_binding_owner_match, bound_backend,
}
use vldb_controller.Registry.Views.{binding_at, attached_by_space, attached_by_client}
use vldb_controller.Registry.Invariant.{IsConsistent}

-- The caller is attached to the space and owns the binding, which has the backend.
pub record IsGranted (kind : BackendKind) (state : ControllerState) (space_id binding_id : String)
    (client_id : Option String) (backend : Backend) : Type 0 where
  pub client : String
  pub entry : BindingEntry
  pub caller : normalize_client_id client_id ≡ some client
  pub attached : attached_by_space client space_id state ≡ true
  pub bound : binding_at kind (binding_key space_id binding_id) state ≡ some entry
  pub owner : entry.owner_client_id ≡ some client
  pub held : entry.backend ≡ backend

module _ (kind : BackendKind) (state : ControllerState) (space_id binding_id : String)
    (client_id : Option String) where
  module _ (space : SpaceState) (entry : BindingEntry)
      (s : BTreeMap.get space_id state.spaces ≡ some space)
      (b : BTreeMap.get binding_id (space.bindings kind) ≡ some entry) where
    caller_is :
        (c x : String)
        → entry.owner_client_id ≡ some c
        → normalize_client_id client_id ≡ some x
        → (backend : Backend) → bound_backend kind state space_id binding_id client_id ≡ ok backend
        → (x ≡ c) × (entry.backend ≡ backend)
    unfolding bound_backend ensure_binding_access_locked ensure_space_access_locked
        binding_owner_client_id ensure_binding_owner_match
    caller_is c x o n backend e = ground (arith, eqb→eq c x)

    no_caller :
        (c : String)
        → entry.owner_client_id ≡ some c
        → normalize_client_id client_id ≡ none
        → (backend : Backend) → bound_backend kind state space_id binding_id client_id ≢ ok backend
    unfolding bound_backend ensure_binding_access_locked ensure_space_access_locked
        binding_owner_client_id ensure_binding_owner_match
    no_caller c o n backend e = ground arith

    granted :
        (c : String)
        → entry.owner_client_id ≡ some c
        → normalize_client_id client_id ≡ some c
        → BTreeSet.contains c space.attached_clients ≡ true
        → BTreeMap.contains_key c state.clients ≡ true
        → bound_backend kind state space_id binding_id client_id ≡ ok entry.backend
    unfolding bound_backend ensure_binding_access_locked ensure_space_access_locked
        binding_owner_client_id ensure_binding_owner_match
    granted c o n a r = ground (arith, eqb_refl c)

  module _ (h : IsConsistent state) where
    abbrev key : BindingKey
    key = binding_key space_id binding_id

    module _ (entry : BindingEntry) (b : binding_at kind key state ≡ some entry) where
      -- Every binding has an owner.
      has_owner : (c : String) × (entry.owner_client_id ≡ some c)
      has_owner = elim (Option-cases entry.owner_client_id) [
        | inl n ↦ absurd (ground (arith, h.owners kind key))
        | inr (c, o) ↦ (c, o)
      ]

      owner_attached :
          (c : String) → entry.owner_client_id ≡ some c → attached_by_space c space_id state ≡ true
      owner_attached c o = ground (
        arith,
        h.symmetric c space_id,
        h.owners_attached kind c key,
        h.indexed.ownership kind c key,
        eqb_refl c,
      )

    found :
        (space : SpaceState) (entry : BindingEntry)
        → BTreeMap.get space_id state.spaces ≡ some space
        → BTreeMap.get binding_id (space.bindings kind) ≡ some entry
        → binding_at kind key state ≡ some entry
    unfolding binding_at
    found space entry s b = rw s b

    grants :
        (backend : Backend) (space : SpaceState) (entry : BindingEntry)
        → BTreeMap.get space_id state.spaces ≡ some space
        → BTreeMap.get binding_id (space.bindings kind) ≡ some entry
        → bound_backend kind state space_id binding_id client_id ≡ ok backend
        → IsGranted kind state space_id binding_id client_id backend
    grants backend space entry s b e =
        let at = found space entry s b in
        let (c, o) = has_owner entry at in
        elim (Option-cases (normalize_client_id client_id)) [
          | inl n ↦ absurd (no_caller space entry s b c o n backend e)
          | inr (x, n) ↦
              let (same, held) = caller_is space entry s b c x o n backend e in
              record {
                client = c;
                entry = entry;
                caller = n ∙ ap some same;
                attached = owner_attached entry at c o;
                bound = at;
                owner = o;
                held = held;
              }
        ]

    to_granted :
        (backend : Backend)
        → bound_backend kind state space_id binding_id client_id ≡ ok backend
        → IsGranted kind state space_id binding_id client_id backend
    unfolding bound_backend ensure_binding_access_locked ensure_space_access_locked
    to_granted backend e = elim (Option-cases (BTreeMap.get space_id state.spaces)) [
      | inl a ↦ absurd (ground arith)
      | inr (space, a) ↦ elim (Option-cases (BTreeMap.get binding_id (space.bindings kind))) [
        | inl b ↦ absurd (ground arith)
        | inr (entry, b) ↦ grants backend space entry a b e
      ]
    ]

    session_of :
        (c : String)
        → attached_by_space c space_id state ≡ true
        → BTreeMap.contains_key c state.clients ≡ true
    unfolding attached_by_client BTreeMap.contains_key
    session_of c a = ground (arith, h.symmetric c space_id)

    from_granted :
        (backend : Backend)
        → IsGranted kind state space_id binding_id client_id backend
        → bound_backend kind state space_id binding_id client_id ≡ ok backend
    unfolding binding_at attached_by_space
    from_granted backend g = elim (Option-cases (BTreeMap.get space_id state.spaces)) [
      | inl a ↦ absurd (ground (arith, g.bound))
      | inr (space, a) ↦
          granted space g.entry a (ground (arith, g.bound)) g.client g.owner g.caller
            (ground (arith, g.attached)) (session_of g.client g.attached)
          ∙ ap ok g.held
    ]

    -- In a consistent registry a data-plane call is given a backend exactly when the binding is there
    -- with that backend, the caller's trimmed name is the binding's owner, and the caller is attached to
    -- the space.
    pub bound_backend-IsGranted :
        (backend : Backend)
        → (bound_backend kind state space_id binding_id client_id ≡ ok backend)
          ↔ IsGranted kind state space_id binding_id client_id backend
    bound_backend-IsGranted backend = (to_granted backend, from_granted backend)
