-- ===== src/Registry/Allowed.antt =====
-- controller/src/core/runtime.rs: the guards of `enable_sqlite` and `enable_lancedb`.
use vldb_controller.Base.{
  String, Option, none, some, true, ◌≡◌, arith, is_some, Option-cases, inl, inr, ◌≢◌,
}
use vldb_controller.Base.Order.{str_ord, eqb→eq}
use vldb_controller.BTreeMap
use vldb_controller.BTreeSet
use vldb_controller.Runtime.Fault.{BackendKind, ok}
use vldb_controller.Runtime.Key.{key_ord}
use vldb_controller.Runtime.State.{SpaceState, ControllerState}
use vldb_controller.Runtime.Keys.{normalize_client_id}
use vldb_controller.Runtime.Access.{
  owner_of, ensure_backend_binding_creation_access_locked, binding_owner_client_id,
  ensure_binding_owner_match,
}
use vldb_controller.Runtime.Enable.{EnableRequest, ensure_enable_allowed}

-- What a request that passes the guards has shown.
pub record IsAllowed (kind : BackendKind) (request : EnableRequest) (client_id : Option String)
    (state : ControllerState) (owner : String) (space : SpaceState) : Type 0 where
  pub client : normalize_client_id client_id ≡ some owner
  pub there : BTreeMap.get request.space_id state.spaces ≡ some space
  pub session : is_some (BTreeMap.get owner state.clients) ≡ true
  pub attached : BTreeSet.contains owner space.attached_clients ≡ true
  pub unclaimed :
      (other : String)
      → owner_of (BTreeMap.get request.binding_id (space.bindings kind)) ≡ some other
      → other ≡ owner

module _ (kind : BackendKind) (request : EnableRequest) (client_id : Option String)
    (state : ControllerState) where
  no_space :
      BTreeMap.get request.space_id state.spaces ≡ none
      → ensure_enable_allowed kind request client_id state ≢ ok tt
  unfolding ensure_enable_allowed ensure_backend_binding_creation_access_locked
  no_space e h = ground arith

  no_client :
      normalize_client_id client_id ≡ none
      → ensure_enable_allowed kind request client_id state ≢ ok tt
  unfolding ensure_enable_allowed ensure_backend_binding_creation_access_locked
  no_client n h = ground arith

  module _ (owner : String) (space : SpaceState) (n : normalize_client_id client_id ≡ some owner)
      (e : BTreeMap.get request.space_id state.spaces ≡ some space)
      (h : ensure_enable_allowed kind request client_id state ≡ ok tt) where
    session_lem : is_some (BTreeMap.get owner state.clients) ≡ true
    unfolding ensure_enable_allowed ensure_backend_binding_creation_access_locked
        BTreeMap.contains_key
    session_lem = ground arith

    attached_lem : BTreeSet.contains owner space.attached_clients ≡ true
    unfolding ensure_enable_allowed ensure_backend_binding_creation_access_locked
    attached_lem = ground arith

    unclaimed_lem :
        (other : String)
        → owner_of (BTreeMap.get request.binding_id (space.bindings kind)) ≡ some other
        → other ≡ owner
    unfolding ensure_enable_allowed ensure_backend_binding_creation_access_locked
        binding_owner_client_id ensure_binding_owner_match
    unclaimed_lem other o = ground (arith, eqb→eq other owner)

  pub ensure_enable_allowed-IsAllowed :
      ensure_enable_allowed kind request client_id state ≡ ok tt
      → (owner : String) × (space : SpaceState) × IsAllowed kind request client_id state owner space
  ensure_enable_allowed-IsAllowed h =
      elim (Option-cases (BTreeMap.get request.space_id state.spaces)) [
        | inl e ↦ absurd (no_space e h)
        | inr (space, e) ↦ elim (Option-cases (normalize_client_id client_id)) [
          | inl n ↦ absurd (no_client n h)
          | inr (owner, n) ↦ (
            owner,
            space,
            record {
              client = n;
              there = e;
              session = session_lem owner space n e h;
              attached = attached_lem owner space n e h;
              unclaimed = unclaimed_lem owner space n e h;
            },
          )
        ]
      ]
