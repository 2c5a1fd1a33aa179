-- ===== src/Base/Except.antt =====
-- Results whose errors are of a given type, for the code that does not share the registry's errors.
use mathlib.Core.Bool.{Bool, true, false}
use mathlib.Core.List.{List, [], ◌∷◌}

pub data Except {ℓ} (E A : Type ℓ) : Type ℓ where
  success : A → Except E A
  failure : E → Except E A

infixl 5 ◌>>=◌
abbrev pub ◌>>=◌ {ℓ} : {E A B : Type ℓ} → Except E A → (A → Except E B) → Except E B
success a >>= f = f a
failure e >>= f = failure e

abbrev pub is_success {ℓ} : {E A : Type ℓ} → Except E A → Bool
is_success (success a) = true
is_success (failure e) = false

abbrev pub map_except {ℓ} : {E A B : Type ℓ} → (A → B) → Except E A → Except E B
map_except f (success a) = success (f a)
map_except f (failure e) = failure e

-- `iter().map(f).collect::<Result<Vec<_>, _>>()`
unfoldable pub traverse {ℓ} : {E A B : Type ℓ} → (A → Except E B) → List A → Except E (List B)
traverse f [] = success []
traverse f (x ∷ xs) = do y ← f x; ys ← traverse f xs; success (y ∷ ys)
