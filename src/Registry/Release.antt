-- ===== src/Registry/Release.antt =====
-- The loops of controller/src/core/runtime.rs that remove all bindings of a leaving client.
use vldb_controller.Base.{
  String, none, some, ◌&&◌, not, ◌≡◌, refl, arith, if◌then◌else◌, ◌∙◌, List, [], ◌∷◌,
}
use vldb_controller.Base.Order.{str_ord}
use vldb_controller.BTreeMap
use vldb_controller.BTreeMap.Entries.{listed}
use vldb_controller.BTreeSet
use vldb_controller.Runtime.Fault.{BackendKind, sqlite, lancedb}
use vldb_controller.Runtime.Key.{BindingKey, key_ord}
use vldb_controller.Runtime.State.{ClientState, ControllerState, same_kind}
use vldb_controller.Runtime.Bindings.{remove_binding_locked}
use vldb_controller.Runtime.Clients.{remove_bindings, release_owned}
use vldb_controller.Registry.Views.{
  binding_at, attached_by_client, attached_by_space, owned_by, profile, SameCounters,
  SameCounters_refl, SameCounters_trans,
}
use vldb_controller.Registry.Invariant.{IsConsistent}
use vldb_controller.Registry.Unbind.{Unbound, Unbound-remove}
use vldb_controller.Registry.Remove.{remove-IsConsistent}

-- Every list forgets the listed keys of one kind, and nothing else changes.
pub record Released (kind : BackendKind) (keys : List BindingKey) (state after : ControllerState)
    : Type 0 where
  pub owned :
      (k : BackendKind) (c : String) (j : BindingKey)
      → owned_by k c j after ≡ (owned_by k c j state && not (same_kind kind k && listed j keys))
  pub bound :
      (k : BackendKind) (j : BindingKey)
      → binding_at k j after
        ≡ (if same_kind kind k && listed j keys then none else binding_at k j state)
  pub by_client : (c s : String) → attached_by_client c s after ≡ attached_by_client c s state
  pub by_space : (c s : String) → attached_by_space c s after ≡ attached_by_space c s state
  pub kept :
      (c : String) → profile (BTreeMap.get c after.clients) ≡ profile (BTreeMap.get c state.clients)
  pub streams : after.sqlite_query_streams ≡ state.sqlite_query_streams
  pub counters : SameCounters after state

module _ (kind : BackendKind) where
  Released-nothing : (state : ControllerState) → Released kind [] state state
  unfolding listed
  Released-nothing state = record {
    owned = λ k c j. ground arith;
    bound = λ k j. ground arith;
    by_client = λ c s. refl;
    by_space = λ c s. refl;
    kept = λ c. refl;
    streams = refl;
    counters = SameCounters_refl state;
  }

  Released-more :
      (key : BindingKey) (rest : List BindingKey) (state mid after : ControllerState)
      → Unbound kind key state mid
      → Released kind rest mid after
      → Released kind (key ∷ rest) state after
  unfolding listed
  Released-more key rest state mid after u r = record {
    owned = λ k c j. ground (arith, u.owned k c j, r.owned k c j);
    bound = λ k j. ground (arith, u.bound k j, r.bound k j);
    by_client = λ c s. r.by_client c s ∙ u.by_client c s;
    by_space = λ c s. r.by_space c s ∙ u.by_space c s;
    kept = λ c. r.kept c ∙ u.kept c;
    streams = r.streams ∙ u.streams;
    counters = SameCounters_trans after mid state r.counters u.counters;
  }

  pub Released-remove_bindings :
      (keys : List BindingKey) (state : ControllerState)
      → IsConsistent state
      → Released kind keys state (remove_bindings kind keys state)
        × IsConsistent (remove_bindings kind keys state)
  unfolding remove_bindings
  Released-remove_bindings [] state h = (Released-nothing state, h)
  Released-remove_bindings (key ∷ rest) state h =
      let (r, h') =
        Released-remove_bindings rest (remove_binding_locked kind state key).1
          (remove-IsConsistent kind key state h) in
      (Released-more key rest state _ _ (Unbound-remove kind key state h.indexed) r, h')

-- What a client gives back: every binding that it owned is gone, and every other one is as before.
pub record GivenBack (client_id : String) (state after : ControllerState) : Type 0 where
  pub owned :
      (k : BackendKind) (c : String) (j : BindingKey)
      → owned_by k c j after ≡ (owned_by k c j state && not (owned_by k client_id j state))
  pub bound :
      (k : BackendKind) (j : BindingKey)
      → binding_at k j after ≡ (if owned_by k client_id j state then none else binding_at k j state)
  pub by_client : (c s : String) → attached_by_client c s after ≡ attached_by_client c s state
  pub by_space : (c s : String) → attached_by_space c s after ≡ attached_by_space c s state
  pub kept :
      (c : String) → profile (BTreeMap.get c after.clients) ≡ profile (BTreeMap.get c state.clients)
  pub streams : after.sqlite_query_streams ≡ state.sqlite_query_streams
  pub counters : SameCounters after state

module _ (state : ControllerState) (client_id : String) (client : ClientState)
    (there : BTreeMap.get client_id state.clients ≡ some client) (h : IsConsistent state) where
  owned_list :
      (k : BackendKind) (j : BindingKey)
      → listed j (BTreeSet.to_list (client.owned_binding_keys k)) ≡ owned_by k client_id j state
  unfolding owned_by
  owned_list k j = BTreeSet.listed-to_list j (client.owned_binding_keys k) ∙ rw there refl

  GivenBack-both :
      (mid after : ControllerState)
      → Released sqlite (BTreeSet.to_list (client.owned_binding_keys sqlite)) state mid
      → Released lancedb (BTreeSet.to_list (client.owned_binding_keys lancedb)) mid after
      → GivenBack client_id state after
  GivenBack-both mid after p q = record {
    owned = λ k c j. ground (arith, p.owned k c j, q.owned k c j, owned_list k j);
    bound = λ k j. ground (arith, p.bound k j, q.bound k j, owned_list k j);
    by_client = λ c s. q.by_client c s ∙ p.by_client c s;
    by_space = λ c s. q.by_space c s ∙ p.by_space c s;
    kept = λ c. q.kept c ∙ p.kept c;
    streams = q.streams ∙ p.streams;
    counters = SameCounters_trans after mid state q.counters p.counters;
  }

  pub GivenBack-release_owned :
      GivenBack client_id state (release_owned client state)
      × IsConsistent (release_owned client state)
  unfolding release_owned
  GivenBack-release_owned =
      let (p, h') =
        Released-remove_bindings sqlite (BTreeSet.to_list (client.owned_binding_keys sqlite)) state
          h in
      let (q, h'') =
        Released-remove_bindings lancedb (BTreeSet.to_list (client.owned_binding_keys lancedb)) _
          h' in
      (GivenBack-both _ _ p q, h'')
