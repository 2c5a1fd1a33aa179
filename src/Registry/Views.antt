-- ===== src/Registry/Views.antt =====
-- What the registry says of a client, a space, a binding key and a resource: one question for each
-- index that controller/src/core/runtime.rs keeps.
use vldb_controller.Base.{
  String, Option, none, some, Bool, true, false, ◌&&◌, ◌≡◌, refl, ap, sym, ◌∙◌, arith,
}
use vldb_controller.Base.Order.{eqb, eqb→eq, str_ord}
use vldb_controller.BTreeMap
use vldb_controller.BTreeSet
use vldb_controller.BTreeSet.{BTreeSet}
use vldb_controller.Runtime.Fault.{BackendKind}
use vldb_controller.Runtime.Key.{BindingKey, key_ord, key_cmp}
use vldb_controller.Runtime.State.{BindingEntry, ClientState, SpaceState, ControllerState}
use vldb_controller.Runtime.Clients.{is_owner}

abbrev pub binding_in : BackendKind → BindingKey → Option SpaceState → Option BindingEntry
binding_in kind key none = none
binding_in kind key (some space) = BTreeMap.get key.binding_id (space.bindings kind)

-- The binding that a key names.
unfoldable pub binding_at : BackendKind → BindingKey → ControllerState → Option BindingEntry
binding_at kind key state = binding_in kind key (BTreeMap.get key.space_id state.spaces)

abbrev pub client_attached : String → Option ClientState → Bool
client_attached space_id none = false
client_attached space_id (some client) = BTreeSet.contains space_id client.attached_space_ids

abbrev pub space_attached : String → Option SpaceState → Bool
space_attached client_id none = false
space_attached client_id (some space) = BTreeSet.contains client_id space.attached_clients

-- Whether the client's own list names the space.
unfoldable pub attached_by_client : String → String → ControllerState → Bool
attached_by_client client_id space_id state =
    client_attached space_id (BTreeMap.get client_id state.clients)

-- Whether the space's own list names the client.
unfoldable pub attached_by_space : String → String → ControllerState → Bool
attached_by_space client_id space_id state =
    space_attached client_id (BTreeMap.get space_id state.spaces)

abbrev pub client_owns : BackendKind → BindingKey → Option ClientState → Bool
client_owns kind key none = false
client_owns kind key (some client) = BTreeSet.contains key (client.owned_binding_keys kind)

-- Whether the client's list of owned bindings names the key.
unfoldable pub owned_by : BackendKind → String → BindingKey → ControllerState → Bool
owned_by kind client_id key state = client_owns kind key (BTreeMap.get client_id state.clients)

abbrev pub has_key : BindingKey → Option (BTreeSet BindingKey) → Bool
has_key key none = false
has_key key (some keys) = BTreeSet.contains key keys

-- Whether the resource's list of users names the key.
unfoldable pub tracked : BackendKind → String → BindingKey → ControllerState → Bool
tracked kind resource_key key state = has_key key (BTreeMap.get resource_key (state.resources kind))

abbrev pub uses : String → Option BindingEntry → Bool
uses resource_key none = false
uses resource_key (some entry) = eqb resource_key entry.resource_key

-- A binding has one owner at most.
pub owner_unique :
    (c d : String) (o : Option String) → is_owner c o ≡ true → is_owner d o ≡ true → c ≡ d
owner_unique c d none h k = cc
owner_unique c d (some owner) h k = eqb→eq c owner h ∙ sym (eqb→eq d owner k)

-- All of a client but the keys of its bindings.
abbrev pub profile : Option ClientState → Option ClientState
profile none = none
profile (some client) = some (record client { owned_binding_keys = λ kind. BTreeSet.new })

-- Two keys are equal if both parts are.
pub key_eqb :
    (a b : BindingKey) → eqb a b ≡ (eqb a.space_id b.space_id && eqb a.binding_id b.binding_id)
unfolding key_cmp
key_eqb a b = ground arith

-- Each view reads one field of the state.
module _ (s t : ControllerState) where
  pub owned_by_same :
      (k : BackendKind) (c : String) (j : BindingKey)
      → s.clients ≡ t.clients
      → owned_by k c j s ≡ owned_by k c j t
  unfolding owned_by
  owned_by_same k c j e = ap (λ m. client_owns k j (BTreeMap.get c m)) e

  pub attached_by_client_same :
      (c d : String) → s.clients ≡ t.clients → attached_by_client c d s ≡ attached_by_client c d t
  unfolding attached_by_client
  attached_by_client_same c d e = ap (λ m. client_attached d (BTreeMap.get c m)) e

  pub attached_by_space_same :
      (c d : String) → s.spaces ≡ t.spaces → attached_by_space c d s ≡ attached_by_space c d t
  unfolding attached_by_space
  attached_by_space_same c d e = ap (λ m. space_attached c (BTreeMap.get d m)) e

  pub binding_at_same :
      (k : BackendKind) (j : BindingKey) → s.spaces ≡ t.spaces → binding_at k j s ≡ binding_at k j t
  unfolding binding_at
  binding_at_same k j e = ap (λ m. binding_in k j (BTreeMap.get j.space_id m)) e

  pub tracked_same :
      (k : BackendKind) (r : String) (j : BindingKey)
      → s.resources ≡ t.resources
      → tracked k r j s ≡ tracked k r j t
  unfolding tracked
  tracked_same k r j e =
      ap
        (λ (m : BackendKind → BTreeMap.BTreeMap String (BTreeSet BindingKey)).
          has_key j (BTreeMap.get r (m k)))
        e

-- The fields that are no index are as they were.
abbrev pub SameCounters : ControllerState → ControllerState → Type 0
SameCounters s t =
    (s.last_request_at ≡ t.last_request_at)
    × (s.last_request_unix_ms ≡ t.last_request_unix_ms)
    × (s.next_query_stream_id ≡ t.next_query_stream_id)
    × (s.inflight_requests ≡ t.inflight_requests)

abbrev pub SameCounters_refl : (s : ControllerState) → SameCounters s s
SameCounters_refl s = (refl, refl, refl, refl)

pub SameCounters_trans :
    (s t u : ControllerState) → SameCounters s t → SameCounters t u → SameCounters s u
SameCounters_trans s t u p q = (p.0 ∙ q.0, p.1 ∙ q.1, p.2 ∙ q.2, p.3 ∙ q.3)
