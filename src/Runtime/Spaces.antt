-- ===== src/Runtime/Spaces.antt =====
-- controller/src/core/runtime.rs: how a client attaches a space and detaches it again.
use vldb_controller.Base.{
  ℕ, String, Option, none, some, Bool, true, false, not, ◌||◌, if◌then◌else◌, is_some, List, [],
  ◌∷◌,
}
use vldb_controller.Base.Order.{eqb, str_ord}
use vldb_controller.Base.Text.{is_blank}
use vldb_controller.BTreeMap
use vldb_controller.BTreeSet
use vldb_controller.Types.{SpaceRegistration, SpaceSnapshot}
use vldb_controller.Runtime.Fault.{
  BackendKind, sqlite, lancedb, Result, ok, err, panic, ◌>>=◌, ◌>>◌, client_not_registered,
  attachment_needs_session, still_owns_bindings, client_not_attached, space_not_attached,
  space_still_in_use,
}
use vldb_controller.Runtime.Key.{BindingKey, key_ord}
use vldb_controller.Runtime.State.{ClientState, SpaceState, ControllerState}
use vldb_controller.Runtime.Keys.{normalize_client_id}
use vldb_controller.Runtime.Validate.{
  validate_space_registration, ensure_matching_space_registration,
}
use vldb_controller.Runtime.Access.{ok_or, require}
use vldb_controller.Runtime.Clients.{is_idle, drop_attached_client, prune_expired_clients_locked}
use vldb_controller.Runtime.Sessions.{expect}
use vldb_controller.Runtime.Snapshots.{snapshot_space_state}

abbrev pub new_space : SpaceRegistration → SpaceState
new_space registration = record {
  registration = registration;
  attached_clients = BTreeSet.new;
  bindings = λ kind. BTreeMap.empty;
}

abbrev pub insert_space : String → SpaceState → ControllerState → ControllerState
insert_space space_id space state = record state {
  spaces = BTreeMap.insert space_id space state.spaces;
}

-- The space is there afterwards, with the registration that it had or with the one that comes in.
abbrev pub ensure_space :
    SpaceRegistration → Option SpaceState → ControllerState → Result ControllerState
ensure_space registration none state =
    ok (insert_space registration.space_id (new_space registration) state)
ensure_space registration (some existing) state = do
  ensure_matching_space_registration existing.registration registration
  ok state

abbrev pub add_attached_space : String → ClientState → ClientState
add_attached_space space_id client = record client {
  attached_space_ids = BTreeSet.insert space_id client.attached_space_ids;
}

abbrev pub add_attached_client : String → SpaceState → SpaceState
add_attached_client client_id space = record space {
  attached_clients = BTreeSet.insert client_id space.attached_clients;
}

-- Both indexes record that the client is attached to the space.
unfoldable pub link : String → String → ControllerState → ControllerState
link client_id space_id state = record state {
  clients = BTreeMap.modify client_id (add_attached_space space_id) state.clients;
  spaces = BTreeMap.modify space_id (add_attached_client client_id) state.spaces;
}

-- The guards of `attach_space`, in order, and the state to which the attachment is added.
unfoldable pub attach_target :
    SpaceRegistration → Option String → ControllerState → Result (String × ControllerState)
attach_target registration client_id state = do
  client_id ← ok_or (normalize_client_id client_id) (attachment_needs_session registration.space_id)
  require (BTreeMap.contains_key client_id state.clients) (client_not_registered client_id)
  state ← ensure_space registration (BTreeMap.get registration.space_id state.spaces) state
  ok (client_id, state)

abbrev pub attach_to :
    String
    → ControllerState
    → Result (String × ControllerState)
    → Result SpaceSnapshot × ControllerState
attach_to space_id before (ok (client_id, state)) =
    let linked = link client_id space_id state in
    (
      (do
        space ← expect (BTreeMap.get space_id linked.spaces) "space must exist after insertion"
        ok (snapshot_space_state space)),
      linked,
    )
attach_to space_id before (err e) = (err e, before)
attach_to space_id before (panic message) = (panic message, before)

unfoldable pub attach_space :
    ℕ → SpaceRegistration → Option String → ControllerState → Result SpaceSnapshot × ControllerState
attach_space now_unix_ms registration client_id state =
    elim (validate_space_registration registration) [
      | ok _ ↦
          let pruned = (prune_expired_clients_locked state now_unix_ms).1 in
          attach_to registration.space_id pruned (attach_target registration client_id pruned)
      | err e ↦ (err e, state)
      | panic message ↦ (panic message, state)
    ]

-- `.any(|binding_key| binding_key.space_id == space_id)`
unfoldable pub owns_in_space : BackendKind → String → ClientState → Bool
owns_in_space kind space_id client =
    BTreeMap.any (λ (key : BindingKey) u. eqb key.space_id space_id)
      (client.owned_binding_keys kind)

abbrev pub remove_attached_space : String → ClientState → ClientState
remove_attached_space space_id client = record client {
  attached_space_ids = BTreeSet.remove space_id client.attached_space_ids;
}

unfoldable pub unlink : String → String → ControllerState → ControllerState
unlink client_id space_id state = record state {
  clients = BTreeMap.modify client_id (remove_attached_space space_id) state.clients;
  spaces = BTreeMap.modify space_id (drop_attached_client client_id) state.spaces;
}

-- What a named client must satisfy to detach, and the state without its attachment.
unfoldable pub detach_client : String → String → ControllerState → Result ControllerState
detach_client space_id client_id state = do
  client ← ok_or (BTreeMap.get client_id state.clients) (client_not_registered client_id)
  require (not (owns_in_space sqlite space_id client || owns_in_space lancedb space_id client))
      (still_owns_bindings client_id space_id)
  require (BTreeSet.contains space_id client.attached_space_ids)
      (client_not_attached client_id space_id)
  ok (unlink client_id space_id state)

-- A name that is blank is no name here, and is not trimmed otherwise.
abbrev pub named : Option String → Option String
named none = none
named (some client_id) = if not (is_blank client_id) then some client_id else none

abbrev pub detach_named : String → Option String → ControllerState → Result ControllerState
detach_named space_id none state = ok state
detach_named space_id (some client_id) state = detach_client space_id client_id state

-- `for attached_client_id in space.attached_clients { … client.attached_space_ids.remove(space_id); }`
unfoldable pub forget_space : String → List String → ControllerState → ControllerState
forget_space space_id [] state = state
forget_space space_id (client_id ∷ rest) state = forget_space space_id rest (record state {
  clients = BTreeMap.modify client_id (remove_attached_space space_id) state.clients;
})

-- An idle space is removed, and the clients that are attached to it forget it.
unfoldable pub remove_if_idle :
    String → Option String → Option SpaceState → ControllerState → Result Bool × ControllerState
remove_if_idle space_id client_id none state = (err (space_not_attached space_id), state)
remove_if_idle space_id client_id (some space) state =
    if is_idle space
    then (
      ok true,
      forget_space space_id (BTreeSet.to_list space.attached_clients)
          (record state { spaces = BTreeMap.remove space_id state.spaces }),
    )
    else if is_some client_id
    then (ok true, state)
    else (err (space_still_in_use space_id), state)

abbrev pub detach_then :
    String
    → Option String
    → ControllerState
    → Result ControllerState
    → Result Bool × ControllerState
detach_then space_id client_id before (ok state) =
    remove_if_idle space_id client_id (BTreeMap.get space_id state.spaces) state
detach_then space_id client_id before (err e) = (err e, before)
detach_then space_id client_id before (panic message) = (panic message, before)

unfoldable pub detach_space :
    ℕ → String → Option String → ControllerState → Result Bool × ControllerState
detach_space now_unix_ms space_id client_id state =
    let pruned = (prune_expired_clients_locked state now_unix_ms).1 in
    if BTreeMap.contains_key space_id pruned.spaces
    then detach_then space_id client_id pruned (detach_named space_id (named client_id) pruned)
    else (ok false, pruned)
