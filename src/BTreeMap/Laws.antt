-- ===== src/BTreeMap/Laws.antt =====
-- The laws of the ordered map: what a lookup finds after each operation.
use mathlib.Core.Option
use vldb_controller.Base.{
  Bool-cases, inl, inr, ◌≡◌, refl, Bool, true, false, none, some, List, [], ◌∷◌, arith,
  if◌then◌else◌,
}
use vldb_controller.Base.Order.{Ord, eqb}
use vldb_controller.BTreeMap.Entries.{keep_if, holds_at, any_in, keys_in, listed}
use vldb_controller.BTreeMap.Entries.Lookup.{
  get-insert_in, get-modify_in, get-remove_in, get-retain_in, listed-keys_in, any_in-false,
  any_in-true,
}
use vldb_controller.BTreeMap.Defs.{
  BTreeMap, empty, get, insert, remove, modify, retain, filter_keys, any, is_empty,
}

module _ {ℓ κ} {K : Type ℓ} ⦃o : Ord K⦄ {V : Type κ} where
  pub get-empty : (j : K) → get j (empty {V = V}) ≡ none
  unfolding get empty
  get-empty j = refl

  pub get-insert :
      (j k : K) (v : V) (m : BTreeMap K V)
      → get j (insert k v m) ≡ (if eqb j k then some v else get j m)
  unfolding get insert
  get-insert j k v m = get-insert_in j k v m.entries

  pub get-modify :
      (j k : K) (f : V → V) (m : BTreeMap K V)
      → get j (modify k f m) ≡ (if eqb j k then Option.map f (get j m) else get j m)
  unfolding get modify
  get-modify j k f m = get-modify_in j k f m.entries

  pub get-remove :
      (j k : K) (m : BTreeMap K V) → get j (remove k m) ≡ (if eqb j k then none else get j m)
  unfolding get remove
  get-remove j k m = get-remove_in j k m.entries m.sorted

  pub get-retain :
      (j : K) (p : K → V → Bool) (m : BTreeMap K V) → get j (retain p m) ≡ keep_if p j (get j m)
  unfolding get retain
  get-retain j p m = get-retain_in j p m.entries m.sorted

  pub listed-filter_keys :
      (j : K) (p : K → V → Bool) (m : BTreeMap K V)
      → listed j (filter_keys p m) ≡ holds_at p j (get j m)
  unfolding get filter_keys
  listed-filter_keys j p m = listed-keys_in j p m.entries m.sorted

  pub any-false :
      (p : K → V → Bool) (m : BTreeMap K V)
      → any p m ≡ false
      → (j : K) → holds_at p j (get j m) ≡ false
  unfolding get any
  any-false p m h j = any_in-false p m.entries h j

  pub any-true :
      (p : K → V → Bool) (m : BTreeMap K V)
      → any p m ≡ true
      → (j : K) × (v : V) × (get j m ≡ some v) × (p j v ≡ true)
  unfolding get any
  any-true p m h = any_in-true p m.entries m.sorted h

  -- An empty map holds no key, and a map that is not empty holds one.
  pub get_of_is_empty : (m : BTreeMap K V) → is_empty m ≡ true → (j : K) → get j m ≡ none
  unfolding is_empty
  get_of_is_empty m h j = ground (arith, any-false (λ k v. true) m (ground arith) j)

  pub held_of_not_empty :
      (m : BTreeMap K V) → is_empty m ≡ false → (j : K) × (v : V) × (get j m ≡ some v)
  unfolding is_empty
  held_of_not_empty m h =
      let (j, v, found, _) = any-true (λ k v. true) m (ground arith) in (j, v, found)

  pub is_empty_of_get : (m : BTreeMap K V) → ((j : K) → get j m ≡ none) → is_empty m ≡ true
  is_empty_of_get m h = elim (Bool-cases (is_empty m)) [
    | inl e ↦ e
    | inr e ↦ let (j, v, found) = held_of_not_empty m e in absurd (cc (h j, found))
  ]

  filter_keys_of_any :
      (p : K → V → Bool) (m : List (K × V)) → any_in (λ k v. true) m ≡ false → keys_in p m ≡ []
  unfolding any_in keys_in
  filter_keys_of_any p [] h = refl
  filter_keys_of_any p (e ∷ m) h = absurd (ground arith)

  pub filter_keys_of_is_empty :
      (p : K → V → Bool) (m : BTreeMap K V) → is_empty m ≡ true → filter_keys p m ≡ []
  unfolding is_empty filter_keys any
  filter_keys_of_is_empty p m h = filter_keys_of_any p m.entries (ground arith)
