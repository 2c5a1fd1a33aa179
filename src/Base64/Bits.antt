-- ===== src/Base64/Bits.antt =====
-- The bit operations of the base64 codec as arithmetic, by evaluation over the values that a byte takes.
use Prim.Native.Nat.{bit_and, bit_or}
use vldb_controller.Base.{
  ℕ, zero, suc, ◌+◌, ◌*◌, ◌%◌, ◌<◌, ◌≡◌, refl, Bool, true, false, ◌&&◌, ◌==◌, not, arith,
}
use vldb_controller.Base.Except.{Except, success, failure}
use vldb_controller.Base64.Codec.{Base64Error, shl8, padding, encode_char, decode_base64_char}

all_below : ℕ → (ℕ → Bool) → Bool
all_below zero p = true
all_below (suc n) p = p n && all_below n p

holds_below : (n : ℕ) (p : ℕ → Bool) (x : ℕ) → all_below n p ≡ true → x < n → p x ≡ true
unfolding all_below
holds_below zero p x h lt = absurd (omega arith)
holds_below (suc n) p x h lt = ground (arith, holds_below n p x)

same : (a b : ℕ) → (a == b) ≡ true → a ≡ b
same a b h = ground arith

-- An operation on two small numbers agrees with another if a table says so.
by_table :
    (m n : ℕ) (f g : ℕ → ℕ → ℕ)
    → all_below m (λ x. all_below n (λ y. f x y == g x y)) ≡ true
    → (x y : ℕ) → x < m
    → y < n
    → f x y ≡ g x y
by_table m n f g h x y p q = same (f x y) (g x y) (
    holds_below n (λ y. f x y == g x y) y
      (holds_below m (λ x. all_below n (λ y. f x y == g x y)) x h p) q)

masks :
    all_below 256
      (λ x. bit_and x 0x03 == x % 4 && bit_and x 0x0f == x % 16 && bit_and x 0x3f == x % 64)
    ≡ true
unfolding all_below
masks = refl

pub masked :
    (x : ℕ)
    → x < 256
    → (bit_and x 0x03 ≡ x % 4) × (bit_and x 0x0f ≡ x % 16) × (bit_and x 0x3f ≡ x % 64)
masked x h = ground (arith, holds_below 256 _ x masks h)

-- `x << k | y`, where `y` has only low bits and no bit of `x` is lost.
pub joined-4 : (x y : ℕ) → x < 64 → y < 4 → bit_or (shl8 x 4) y ≡ x * 4 + y
unfolding all_below
joined-4 = by_table 64 4 (λ x y. bit_or (shl8 x 4) y) (λ x y. x * 4 + y) refl

pub joined-16 : (x y : ℕ) → x < 16 → y < 16 → bit_or (shl8 x 16) y ≡ x * 16 + y
unfolding all_below
joined-16 = by_table 16 16 (λ x y. bit_or (shl8 x 16) y) (λ x y. x * 16 + y) refl

pub joined-64 : (x y : ℕ) → x < 4 → y < 64 → bit_or (shl8 x 64) y ≡ x * 64 + y
unfolding all_below
joined-64 = by_table 4 64 (λ x y. bit_or (shl8 x 64) y) (λ x y. x * 64 + y) refl

abbrev gives : Except Base64Error ℕ → ℕ → Bool
gives (success v) i = v == i
gives (failure e) i = false

gives_same : (r : Except Base64Error ℕ) (i : ℕ) → gives r i ≡ true → r ≡ success i
gives_same (success v) i h = ground (arith, same v i)
gives_same (failure e) i h = cc

characters :
    all_below 64
      (λ i. gives (decode_base64_char (encode_char i)) i && not (encode_char i == padding))
    ≡ true
unfolding all_below encode_char decode_base64_char
characters = refl

-- A character of the table stands for its index and is not the padding.
pub decode-encode_char :
    (i : ℕ)
    → i < 64
    → (decode_base64_char (encode_char i) ≡ success i) × ((encode_char i == padding) ≡ false)
decode-encode_char i h =
    ground
      (arith, holds_below 64 _ i characters h, gives_same (decode_base64_char (encode_char i)) i)
