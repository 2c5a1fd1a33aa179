-- ===== src/Base/Order.antt =====
-- `Ord` of the standard library, for the keys of its ordered maps: numbers, texts and pairs.
use Prim.Native.Nat.{ℕ, compare, Ordering}
use Prim.Native.Char.{code}
use Prim.Native.String.{String}
use text.Mathlib.TextEquality.{Char-path}
use mathlib.Core.Path.{◌≡◌, refl, ap₂, sym}
use mathlib.Core.Bool.{Bool, true, false}
use native.Mathlib.Omega.{arith}

pub record Ord {ℓ} (K : Type ℓ) : Type ℓ where
  pub cmp : K → K → Ordering
  pub cmp_refl : (a : K) → cmp a a ≡ Ordering.eq
  pub cmp_eq : (a b : K) → cmp a b ≡ Ordering.eq → a ≡ b
  pub cmp_flip : (a b : K) → cmp a b ≡ Ordering.gt → cmp b a ≡ Ordering.lt
  pub cmp_trans :
      (a b c : K) → cmp a b ≡ Ordering.lt → cmp b c ≡ Ordering.lt → cmp a c ≡ Ordering.lt

-- `==` of a key type.
abbrev pub is_eq : Ordering → Bool
is_eq Ordering.lt = false
is_eq Ordering.eq = true
is_eq Ordering.gt = false

module _ {ℓ} {K : Type ℓ} ⦃o : Ord K⦄ where
  abbrev pub eqb : K → K → Bool
  eqb a b = is_eq (o.cmp a b)

  pub eqb_refl : (a : K) → eqb a a ≡ true
  eqb_refl a = rw (o.cmp_refl a)

  pub eqb→eq : (a b : K) → eqb a b ≡ true → a ≡ b
  eqb→eq a b h = o.cmp_eq a b (go (o.cmp a b) h)
    where
      go : (r : Ordering) → is_eq r ≡ true → r ≡ Ordering.eq
      go Ordering.lt e = cc
      go Ordering.eq e = refl
      go Ordering.gt e = cc

  pub eqb_sym : (a b : K) → eqb a b ≡ eqb b a
  eqb_sym a b = go (eqb a b) refl (eqb b a) refl
    where
      go : (r : Bool) → eqb a b ≡ r → (t : Bool) → eqb b a ≡ t → r ≡ t
      go true e true f = refl
      go true e false f = rw (eqb→eq a b e, eqb_refl b) at f
      go false e true f = sym (rw (eqb→eq b a f, eqb_refl a) at e)
      go false e false f = refl

pub nat_refl : (a : ℕ) → compare a a ≡ Ordering.eq
nat_refl a = ground arith

pub nat_eq : (a b : ℕ) → compare a b ≡ Ordering.eq → a ≡ b
nat_eq a b h = ground arith

pub nat_flip : (a b : ℕ) → compare a b ≡ Ordering.gt → compare b a ≡ Ordering.lt
nat_flip a b h = ground arith

pub nat_trans :
    (a b c : ℕ) → compare a b ≡ Ordering.lt → compare b c ≡ Ordering.lt → compare a c ≡ Ordering.lt
nat_trans a b c h k = ground arith

instance abbrev pub nat_ord : Ord ℕ
nat_ord = record {
  cmp = compare;
  cmp_refl = nat_refl;
  cmp_eq = nat_eq;
  cmp_flip = nat_flip;
  cmp_trans = nat_trans;
}

-- Two comparisons in turn, the first one first.
abbrev pub then_with : Ordering → Ordering → Ordering
then_with Ordering.lt r = Ordering.lt
then_with Ordering.eq r = r
then_with Ordering.gt r = Ordering.gt

-- `str`'s order is that of the UTF-8 bytes, which is that of the code points.
unfoldable pub str_cmp : String → String → Ordering
str_cmp String.[] String.[] = Ordering.eq
str_cmp String.[] (String.◌∷◌ d t) = Ordering.lt
str_cmp (String.◌∷◌ c s) String.[] = Ordering.gt
str_cmp (String.◌∷◌ c s) (String.◌∷◌ d t) = elim (compare (code c) (code d)) [
  | Ordering.lt ↦ Ordering.lt
  | Ordering.eq ↦ str_cmp s t
  | Ordering.gt ↦ Ordering.gt
]

pub str_refl : (s : String) → str_cmp s s ≡ Ordering.eq
unfolding str_cmp
str_refl String.[] = refl
str_refl (String.◌∷◌ c s) = ground (arith, str_refl s)

pub str_eq : (s t : String) → str_cmp s t ≡ Ordering.eq → s ≡ t
unfolding str_cmp
str_eq String.[] String.[] h = refl
str_eq String.[] (String.◌∷◌ d t) h = cc
str_eq (String.◌∷◌ c s) String.[] h = cc
str_eq (String.◌∷◌ c s) (String.◌∷◌ d t) h =
    ap₂ String.◌∷◌ (Char-path c d (ground arith)) (str_eq s t (ground arith))

pub str_flip : (s t : String) → str_cmp s t ≡ Ordering.gt → str_cmp t s ≡ Ordering.lt
unfolding str_cmp
str_flip String.[] String.[] h = cc
str_flip String.[] (String.◌∷◌ d t) h = cc
str_flip (String.◌∷◌ c s) String.[] h = refl
str_flip (String.◌∷◌ c s) (String.◌∷◌ d t) h = ground (arith, str_flip s t)

pub str_trans :
    (s t u : String)
    → str_cmp s t ≡ Ordering.lt
    → str_cmp t u ≡ Ordering.lt
    → str_cmp s u ≡ Ordering.lt
unfolding str_cmp
str_trans String.[] String.[] u h k = cc
str_trans String.[] (String.◌∷◌ d t) String.[] h k = cc
str_trans String.[] (String.◌∷◌ d t) (String.◌∷◌ e u) h k = refl
str_trans (String.◌∷◌ c s) String.[] u h k = cc
str_trans (String.◌∷◌ c s) (String.◌∷◌ d t) String.[] h k = cc
str_trans (String.◌∷◌ c s) (String.◌∷◌ d t) (String.◌∷◌ e u) h k = ground (arith, str_trans s t u)

instance abbrev pub str_ord : Ord String
str_ord = record {
  cmp = str_cmp;
  cmp_refl = str_refl;
  cmp_eq = str_eq;
  cmp_flip = str_flip;
  cmp_trans = str_trans;
}
