-- ===== src/BTreeMap/Defs.antt =====
-- The operations of the ordered map.
use vldb_controller.Base.{ℕ, Bool, true, not, Option, List, [], map, length, is_some}
use vldb_controller.Base.Order.{Ord}
use vldb_controller.BTreeMap.Entries.{
  IsSorted, get_in, insert_in, remove_in, modify_in, retain_in, keys_in, any_in, insert_in-IsSorted,
  remove_in-IsSorted, modify_in-IsSorted, retain_in-IsSorted,
}

pub record BTreeMap {ℓ κ} (K : Type ℓ) ⦃o : Ord K⦄ (V : Type κ) : Type (ℓ ⊔ κ) where
  pub entries : List (K × V)
  pub sorted : IsSorted entries

module _ {ℓ κ} {K : Type ℓ} ⦃o : Ord K⦄ {V : Type κ} where
  unfoldable pub empty : BTreeMap K V
  empty = record { entries = []; sorted = tt }

  unfoldable pub get : K → BTreeMap K V → Option V
  unfolding get_in
  get k m = get_in k m.entries

  unfoldable pub contains_key : K → BTreeMap K V → Bool
  unfolding get
  contains_key k m = is_some (get k m)

  unfoldable pub insert : K → V → BTreeMap K V → BTreeMap K V
  unfolding insert_in
  insert k v m = record {
    entries = insert_in k v m.entries;
    sorted = insert_in-IsSorted k v m.entries m.sorted;
  }

  unfoldable pub remove : K → BTreeMap K V → BTreeMap K V
  unfolding remove_in
  remove k m = record {
    entries = remove_in k m.entries;
    sorted = remove_in-IsSorted k m.entries m.sorted;
  }

  -- What `if let Some(value) = map.get_mut(key) { … }` does to the map.
  unfoldable pub modify : K → (V → V) → BTreeMap K V → BTreeMap K V
  unfolding modify_in
  modify k f m = record {
    entries = modify_in k f m.entries;
    sorted = modify_in-IsSorted k f m.entries m.sorted;
  }

  unfoldable pub retain : (K → V → Bool) → BTreeMap K V → BTreeMap K V
  unfolding retain_in
  retain p m = record {
    entries = retain_in p m.entries;
    sorted = retain_in-IsSorted p m.entries m.sorted;
  }

  -- `iter().filter_map(…)` where the closure keeps the keys of some entries.
  unfoldable pub filter_keys : (K → V → Bool) → BTreeMap K V → List K
  unfolding keys_in
  filter_keys p m = keys_in p m.entries

  unfoldable pub any : (K → V → Bool) → BTreeMap K V → Bool
  unfolding any_in
  any p m = any_in p m.entries

  unfoldable pub values : BTreeMap K V → List V
  values m = map (λ e. e.1) m.entries

  unfoldable pub len : BTreeMap K V → ℕ
  len m = length m.entries

  unfoldable pub is_empty : BTreeMap K V → Bool
  unfolding any
  is_empty m = not (any (λ k v. true) m)
