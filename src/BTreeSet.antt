-- ===== src/BTreeSet.antt =====
-- `std::collections::BTreeSet`: an ordered map to the one-element type.
use vldb_controller.Base.{
  ◌≡◌, refl, inl, inr, Bool-cases, Bool, true, false, not, ◌&&◌, ◌||◌, List, [], arith, is_some,
}
use vldb_controller.Base.Order.{Ord, eqb, eqb_refl}
use vldb_controller.BTreeMap
use vldb_controller.BTreeMap.{BTreeMap}
use vldb_controller.BTreeMap.Entries.{listed}

abbrev pub BTreeSet {ℓ} : (K : Type ℓ) ⦃o : Ord K⦄ → Type ℓ
BTreeSet K = BTreeMap K (Unit {0})

module _ {ℓ} {K : Type ℓ} ⦃o : Ord K⦄ where
  unfoldable pub new : BTreeSet K
  unfolding BTreeMap.empty
  new = BTreeMap.empty

  unfoldable pub contains : K → BTreeSet K → Bool
  unfolding BTreeMap.get
  contains k s = is_some (BTreeMap.get k s)

  unfoldable pub insert : K → BTreeSet K → BTreeSet K
  unfolding BTreeMap.insert
  insert k s = BTreeMap.insert k tt s

  unfoldable pub remove : K → BTreeSet K → BTreeSet K
  unfolding BTreeMap.remove
  remove k s = BTreeMap.remove k s

  -- `iter().cloned().collect::<Vec<_>>()`
  unfoldable pub to_list : BTreeSet K → List K
  unfolding BTreeMap.filter_keys
  to_list s = BTreeMap.filter_keys (λ k v. true) s

  unfoldable pub is_empty : BTreeSet K → Bool
  unfolding BTreeMap.is_empty
  is_empty s = BTreeMap.is_empty s

  pub contains-new : (j : K) → contains j new ≡ false
  unfolding contains new
  contains-new j = refl

  pub contains-insert :
      (j k : K) (s : BTreeSet K) → contains j (insert k s) ≡ (eqb j k || contains j s)
  unfolding contains insert
  contains-insert j k s = ground (arith, BTreeMap.get-insert j k tt s)

  pub contains-remove :
      (j k : K) (s : BTreeSet K) → contains j (remove k s) ≡ (not (eqb j k) && contains j s)
  unfolding contains remove
  contains-remove j k s = ground (arith, BTreeMap.get-remove j k s)

  pub listed-to_list : (j : K) (s : BTreeSet K) → listed j (to_list s) ≡ contains j s
  unfolding contains to_list
  listed-to_list j s = ground (arith, BTreeMap.listed-filter_keys j (λ k v. true) s)

  pub contains_of_is_empty : (s : BTreeSet K) → is_empty s ≡ true → (j : K) → contains j s ≡ false
  unfolding contains is_empty
  contains_of_is_empty s h j = ground (arith, BTreeMap.get_of_is_empty s h j)

  pub member_of_not_empty : (s : BTreeSet K) → is_empty s ≡ false → (j : K) × (contains j s ≡ true)
  unfolding contains is_empty
  member_of_not_empty s h = let (j, v, found) = BTreeMap.held_of_not_empty s h in (j, ground arith)

  pub is_empty-insert : (k : K) (s : BTreeSet K) → is_empty (insert k s) ≡ false
  is_empty-insert k s = elim (Bool-cases (is_empty (insert k s))) [
    | inl e ↦
        absurd
          (ground (arith, contains_of_is_empty (insert k s) e k, contains-insert k k s, eqb_refl k))
    | inr e ↦ e
  ]

  pub to_list_of_is_empty : (s : BTreeSet K) → is_empty s ≡ true → to_list s ≡ []
  unfolding is_empty to_list
  to_list_of_is_empty s h = BTreeMap.filter_keys_of_is_empty (λ k v. true) s h
