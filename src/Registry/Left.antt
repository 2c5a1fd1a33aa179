-- ===== src/Registry/Left.antt =====
-- What is left of the registry when some clients leave it.
use vldb_controller.Base.{
  ℕ, String, Option, none, some, Bool, false, ◌&&◌, ◌||◌, not, ◌≡◌, refl, arith, if◌then◌else◌,
  fun_ext,
}
use vldb_controller.Base.Order.{str_ord, nat_ord}
use vldb_controller.BTreeMap
use vldb_controller.BTreeMap.Entries.{keep_if}
use vldb_controller.Runtime.Fault.{BackendKind}
use vldb_controller.Runtime.Key.{BindingKey}
use vldb_controller.Runtime.State.{SqliteQueryStreamEntry, ControllerState}
use vldb_controller.Runtime.Access.{owner_of}
use vldb_controller.Registry.Views.{
  binding_at, attached_by_space, owned_by, profile, SameCounters, SameCounters_refl,
  SameCounters_trans,
}

abbrev pub owner_gone : (String → Bool) → Option String → Bool
owner_gone gone none = false
owner_gone gone (some owner) = gone owner

abbrev pub stays : (String → Bool) → ℕ → SqliteQueryStreamEntry → Bool
stays gone id entry = not (owner_gone gone entry.owner_client_id)

-- The clients that are gone are in no index, with their bindings and their streams, and the others are
-- as before.
pub record Left (gone : String → Bool) (state after : ControllerState) : Type 0 where
  pub kept :
      (c : String)
      → profile (BTreeMap.get c after.clients)
        ≡ (if gone c then none else profile (BTreeMap.get c state.clients))
  pub owned :
      (k : BackendKind) (c : String) (j : BindingKey)
      → owned_by k c j after ≡ (owned_by k c j state && not (gone c))
  pub bound :
      (k : BackendKind) (j : BindingKey)
      → binding_at k j after
        ≡ (if owner_gone gone (owner_of (binding_at k j state)) then none else binding_at k j state)
  pub by_space :
      (c s : String) → attached_by_space c s after ≡ (attached_by_space c s state && not (gone c))
  pub streams :
      (id : ℕ)
      → BTreeMap.get id after.sqlite_query_streams
        ≡ keep_if (stays gone) id (BTreeMap.get id state.sqlite_query_streams)
  pub counters : SameCounters after state

owner_gone_nobody : (o : Option String) → owner_gone (λ c. false) o ≡ false
owner_gone_nobody none = refl
owner_gone_nobody (some owner) = refl

keep_if_nobody :
    (id : ℕ) (o : Option SqliteQueryStreamEntry) → o ≡ keep_if (stays (λ c. false)) id o
keep_if_nobody id none = refl
keep_if_nobody id (some entry) = rw (owner_gone_nobody entry.owner_client_id) refl

pub Left-nobody : (state : ControllerState) → Left (λ c. false) state state
Left-nobody state = record {
  kept = λ c. refl;
  owned = λ k c j. ground arith;
  bound = λ k j. rw (owner_gone_nobody (owner_of (binding_at k j state))) refl;
  by_space = λ c s. ground arith;
  streams = λ id. keep_if_nobody id (BTreeMap.get id state.sqlite_query_streams);
  counters = SameCounters_refl state;
}

module _ (g h : String → Bool) where
  abbrev either : String → Bool
  either c = g c || h c

  owner_gone-either : (o : Option String) → owner_gone either o ≡ (owner_gone g o || owner_gone h o)
  owner_gone-either none = refl
  owner_gone-either (some owner) = refl

  keep_if-either :
      (id : ℕ) (o : Option SqliteQueryStreamEntry)
      → keep_if (stays h) id (keep_if (stays g) id o) ≡ keep_if (stays either) id o
  keep_if-either id none = refl
  keep_if-either id (some entry) = ground (arith, owner_gone-either entry.owner_client_id)

  pub Left-trans :
      (state mid after : ControllerState)
      → Left g state mid
      → Left h mid after
      → Left (λ c. g c || h c) state after
  Left-trans state mid after p q = record {
    kept = λ c. ground (arith, p.kept c, q.kept c);
    owned = λ k c j. ground (arith, p.owned k c j, q.owned k c j);
    bound = λ k j.
        ground
          (arith, p.bound k j, q.bound k j, owner_gone-either (owner_of (binding_at k j state)));
    by_space = λ c s. ground (arith, p.by_space c s, q.by_space c s);
    streams = λ id.
        rw (q.streams id, p.streams id)
          (keep_if-either id (BTreeMap.get id state.sqlite_query_streams));
    counters = SameCounters_trans after mid state q.counters p.counters;
  }

  pub Left-ext :
      (state after : ControllerState)
      → ((c : String) → g c ≡ h c)
      → Left g state after
      → Left h state after
  Left-ext state after e p = rw (← fun_ext e) p
