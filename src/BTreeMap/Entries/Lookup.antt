-- ===== src/BTreeMap/Entries/Lookup.antt =====
-- What a lookup finds after each change of a sorted list of entries.
use vldb_controller.Base.{
  ◌≡◌, refl, inl, inr, Bool, true, false, none, some, List, [], ◌∷◌, arith, if◌then◌else◌,
  Bool-cases,
}
use mathlib.Core.Option
use vldb_controller.Base.Order.{Ord, eqb, eqb_refl}
use vldb_controller.BTreeMap.Entries.{
  keep_if, holds_at, IsSorted, get_in, insert_in, remove_in, modify_in, retain_in, keys_in, any_in,
  listed, get_in-Above,
}

module _ {ℓ κ} {K : Type ℓ} ⦃o : Ord K⦄ {V : Type κ} where
  pub get-insert_in :
      (j k : K) (v : V) (m : List (K × V))
      → get_in j (insert_in k v m) ≡ (if eqb j k then some v else get_in j m)
  unfolding get_in insert_in
  get-insert_in j k v [] = refl
  get-insert_in j k v ((i, w) ∷ m) =
      ground (arith, get-insert_in j k v m, o.cmp_eq k i, o.cmp_eq j k, o.cmp_eq j i, o.cmp_refl k)

  pub get-modify_in :
      (j k : K) (f : V → V) (m : List (K × V))
      → get_in j (modify_in k f m) ≡ (if eqb j k then Option.map f (get_in j m) else get_in j m)
  unfolding get_in modify_in
  get-modify_in j k f [] = ground arith
  get-modify_in j k f ((i, w) ∷ m) =
      ground (arith, get-modify_in j k f m, o.cmp_eq j i, o.cmp_eq j k, o.cmp_eq k i, o.cmp_refl k)

  pub get-remove_in :
      (j k : K) (m : List (K × V))
      → IsSorted m
      → get_in j (remove_in k m) ≡ (if eqb j k then none else get_in j m)
  unfolding get_in remove_in
  get-remove_in j k [] s = ground arith
  get-remove_in j k ((i, w) ∷ m) s = ground (
    arith,
    get-remove_in j k m s.1,
    get_in-Above i m s.0,
    o.cmp_eq j k,
    o.cmp_eq k i,
    o.cmp_eq j i,
    o.cmp_refl k,
  )

  pub get-retain_in :
      (j : K) (p : K → V → Bool) (m : List (K × V))
      → IsSorted m
      → get_in j (retain_in p m) ≡ keep_if p j (get_in j m)
  unfolding get_in retain_in
  get-retain_in j p [] s = refl
  get-retain_in j p ((i, w) ∷ m) s =
      ground (arith, get-retain_in j p m s.1, get_in-Above i m s.0, o.cmp_eq j i)

  pub listed-keys_in :
      (j : K) (p : K → V → Bool) (m : List (K × V))
      → IsSorted m
      → listed j (keys_in p m) ≡ holds_at p j (get_in j m)
  unfolding get_in keys_in listed
  listed-keys_in j p [] s = refl
  listed-keys_in j p ((i, w) ∷ m) s =
      ground (arith, listed-keys_in j p m s.1, get_in-Above i m s.0, o.cmp_eq j i)

  pub any_in-false :
      (p : K → V → Bool) (m : List (K × V))
      → any_in p m ≡ false
      → (j : K) → holds_at p j (get_in j m) ≡ false
  unfolding get_in any_in
  any_in-false p [] h j = refl
  any_in-false p ((i, w) ∷ m) h j = ground (arith, any_in-false p m (ground arith) j, o.cmp_eq j i)

  pub any_in-true :
      (p : K → V → Bool) (m : List (K × V))
      → IsSorted m
      → any_in p m ≡ true
      → (j : K) × (v : V) × (get_in j m ≡ some v) × (p j v ≡ true)
  unfolding get_in any_in
  any_in-true p [] s h = cc
  any_in-true p ((i, w) ∷ m) s h = elim (Bool-cases (p i w)) [
    | inl e ↦ (i, w, rw (eqb_refl i) refl, e)
    | inr e ↦
        let (j, v, found, e') = any_in-true p m s.1 (ground arith) in
        (j, v, ground (arith, get_in-Above i m s.0, o.cmp_eq j i), e')
  ]
