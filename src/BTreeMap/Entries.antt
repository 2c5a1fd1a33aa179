-- ===== src/BTreeMap/Entries.antt =====
-- Lists of entries in strictly ascending key order.
pub mod Lookup
use vldb_controller.Base.{
  Ordering, ◌≡◌, refl, ap, Bool, true, false, ◌||◌, Option, none, some, List, [], ◌∷◌, arith,
  if◌then◌else◌,
}
use vldb_controller.Base.Order.{Ord, is_eq, eqb, eqb_refl, eqb→eq}

-- What a map hands out of a stored value under a test of the entry.
abbrev pub keep_if {ℓ κ} : {K : Type ℓ} {V : Type κ} → (K → V → Bool) → K → Option V → Option V
keep_if p k none = none
keep_if p k (some v) = if p k v then some v else none

abbrev pub holds_at {ℓ κ} : {K : Type ℓ} {V : Type κ} → (K → V → Bool) → K → Option V → Bool
holds_at p k none = false
holds_at p k (some v) = p k v

module _ {ℓ} {K : Type ℓ} ⦃o : Ord K⦄ where
  -- Membership of a key in a list, as `==` decides it.
  unfoldable pub listed : K → List K → Bool
  listed k [] = false
  listed k (j ∷ l) = eqb k j || listed k l

module _ {ℓ κ} {K : Type ℓ} ⦃o : Ord K⦄ {V : Type κ} where
  -- Every key of the list is greater than `k`.
  abbrev pub Above : K → List (K × V) → Type 0
  Above k [] = Unit
  Above k ((j, w) ∷ m) = (o.cmp k j ≡ Ordering.lt) × Above k m

  abbrev pub IsSorted : List (K × V) → Type 0
  IsSorted [] = Unit
  IsSorted ((k, v) ∷ m) = Above k m × IsSorted m

  unfoldable pub get_in : K → List (K × V) → Option V
  get_in k [] = none
  get_in k ((j, w) ∷ m) = if eqb k j then some w else get_in k m

  unfoldable pub insert_in : K → V → List (K × V) → List (K × V)
  insert_in k v [] = (k, v) ∷ []
  insert_in k v ((j, w) ∷ m) = elim (o.cmp k j) [
    | Ordering.lt ↦ (k, v) ∷ (j, w) ∷ m
    | Ordering.eq ↦ (j, v) ∷ m
    | Ordering.gt ↦ (j, w) ∷ insert_in k v m
  ]

  unfoldable pub remove_in : K → List (K × V) → List (K × V)
  remove_in k [] = []
  remove_in k ((j, w) ∷ m) = if eqb k j then m else (j, w) ∷ remove_in k m

  unfoldable pub modify_in : K → (V → V) → List (K × V) → List (K × V)
  modify_in k f [] = []
  modify_in k f ((j, w) ∷ m) = (j, if eqb k j then f w else w) ∷ modify_in k f m

  unfoldable pub retain_in : (K → V → Bool) → List (K × V) → List (K × V)
  retain_in p [] = []
  retain_in p ((j, w) ∷ m) = let rest = retain_in p m in if p j w then (j, w) ∷ rest else rest

  unfoldable pub keys_in : (K → V → Bool) → List (K × V) → List K
  keys_in p [] = []
  keys_in p ((j, w) ∷ m) = let rest = keys_in p m in if p j w then j ∷ rest else rest

  unfoldable pub any_in : (K → V → Bool) → List (K × V) → Bool
  any_in p [] = false
  any_in p ((j, w) ∷ m) = p j w || any_in p m

  pub Above-trans : (k j : K) (m : List (K × V)) → o.cmp k j ≡ Ordering.lt → Above j m → Above k m
  Above-trans k j [] h a = tt
  Above-trans k j ((i, w) ∷ m) h a = (o.cmp_trans k j i h a.0, Above-trans k j m h a.1)

  pub get_in-Above : (k : K) (m : List (K × V)) → Above k m → get_in k m ≡ none
  unfolding get_in
  get_in-Above k [] a = refl
  get_in-Above k ((j, w) ∷ m) a = ground (arith, get_in-Above k m)

  Above-insert :
      (i k : K) (v : V) (m : List (K × V))
      → o.cmp i k ≡ Ordering.lt
      → Above i m
      → Above i (insert_in k v m)
  unfolding insert_in
  Above-insert i k v [] h a = (h, tt)
  Above-insert i k v ((j, w) ∷ m) h a = go (o.cmp k j) (Above-insert i k v m h a.1)
    where
      go :
          (r : Ordering)
          → Above i (insert_in k v m)
          → Above i (elim r [
            | Ordering.lt ↦ (k, v) ∷ (j, w) ∷ m
            | Ordering.eq ↦ (j, v) ∷ m
            | Ordering.gt ↦ (j, w) ∷ insert_in k v m
          ])
      go Ordering.lt ih = (h, a)
      go Ordering.eq ih = (a.0, a.1)
      go Ordering.gt ih = (a.0, ih)

  pub insert_in-IsSorted :
      (k : K) (v : V) (m : List (K × V)) → IsSorted m → IsSorted (insert_in k v m)
  unfolding insert_in
  insert_in-IsSorted k v [] s = (tt, tt)
  insert_in-IsSorted k v ((j, w) ∷ m) s = go (o.cmp k j) refl (insert_in-IsSorted k v m s.1)
    where
      go :
          (r : Ordering)
          → o.cmp k j ≡ r
          → IsSorted (insert_in k v m)
          → IsSorted (elim r [
            | Ordering.lt ↦ (k, v) ∷ (j, w) ∷ m
            | Ordering.eq ↦ (j, v) ∷ m
            | Ordering.gt ↦ (j, w) ∷ insert_in k v m
          ])
      go Ordering.lt e ih = ((e, Above-trans k j m e s.0), s)
      go Ordering.eq e ih = s
      go Ordering.gt e ih = (Above-insert j k v m (o.cmp_flip k j e) s.0, ih)

  Above-remove : (i k : K) (m : List (K × V)) → Above i m → Above i (remove_in k m)
  unfolding remove_in
  Above-remove i k [] a = tt
  Above-remove i k ((j, w) ∷ m) a = go (eqb k j) (Above-remove i k m a.1)
    where
      go : (b : Bool) → Above i (remove_in k m) → Above i (if b then m else (j, w) ∷ remove_in k m)
      go true ih = a.1
      go false ih = (a.0, ih)

  pub remove_in-IsSorted : (k : K) (m : List (K × V)) → IsSorted m → IsSorted (remove_in k m)
  unfolding remove_in
  remove_in-IsSorted k [] s = tt
  remove_in-IsSorted k ((j, w) ∷ m) s = go (eqb k j) (remove_in-IsSorted k m s.1)
    where
      go :
          (b : Bool) → IsSorted (remove_in k m) → IsSorted (if b then m else (j, w) ∷ remove_in k m)
      go true ih = s.1
      go false ih = (Above-remove j k m s.0, ih)

  Above-modify : (i k : K) (f : V → V) (m : List (K × V)) → Above i m → Above i (modify_in k f m)
  unfolding modify_in
  Above-modify i k f [] a = tt
  Above-modify i k f ((j, w) ∷ m) a = (a.0, Above-modify i k f m a.1)

  pub modify_in-IsSorted :
      (k : K) (f : V → V) (m : List (K × V)) → IsSorted m → IsSorted (modify_in k f m)
  unfolding modify_in
  modify_in-IsSorted k f [] s = tt
  modify_in-IsSorted k f ((j, w) ∷ m) s = (Above-modify j k f m s.0, modify_in-IsSorted k f m s.1)

  Above-retain : (i : K) (p : K → V → Bool) (m : List (K × V)) → Above i m → Above i (retain_in p m)
  unfolding retain_in
  Above-retain i p [] a = tt
  Above-retain i p ((j, w) ∷ m) a = go (p j w) (Above-retain i p m a.1)
    where
      go :
          (b : Bool)
          → Above i (retain_in p m)
          → Above i (if b then (j, w) ∷ retain_in p m else retain_in p m)
      go true ih = (a.0, ih)
      go false ih = ih

  pub retain_in-IsSorted :
      (p : K → V → Bool) (m : List (K × V)) → IsSorted m → IsSorted (retain_in p m)
  unfolding retain_in
  retain_in-IsSorted p [] s = tt
  retain_in-IsSorted p ((j, w) ∷ m) s = go (p j w) (retain_in-IsSorted p m s.1)
    where
      go :
          (b : Bool)
          → IsSorted (retain_in p m)
          → IsSorted (if b then (j, w) ∷ retain_in p m else retain_in p m)
      go true ih = (Above-retain j p m s.0, ih)
      go false ih = ih
