-- ===== src/Base/Text.antt =====
-- `str::trim` and what the controller builds from it. A character is white space by Unicode's
-- property White_Space, as `char::is_whitespace` decides it.
use Prim.Native.Nat.{ℕ}
use Prim.Native.Char.{Char, code}
use Prim.Native.String.{String}
use mathlib.Core.Path.{◌≡◌, refl, ap, ◌∙◌}
use mathlib.Core.Logic.{inl, inr}
use mathlib.Core.Bool.{Bool, true, false, ◌&&◌, ◌||◌}
use vldb_controller.Base.Tests.{leb, ◌==◌, if◌then◌else◌, Bool-cases}

unfoldable pub is_whitespace : ℕ → Bool
is_whitespace c =
    (leb 9 c && leb c 13)
    || c == 32
    || c == 0x85
    || c == 0xa0
    || c == 0x1680
    || (leb 0x2000 c && leb c 0x200a)
    || c == 0x2028
    || c == 0x2029
    || c == 0x202f
    || c == 0x205f
    || c == 0x3000

abbrev pub is_empty : String → Bool
is_empty String.[] = true
is_empty (String.◌∷◌ c s) = false

unfoldable pub trim_start : String → String
unfolding is_whitespace
trim_start String.[] = String.[]
trim_start (String.◌∷◌ c s) = if is_whitespace (code c) then trim_start s else String.◌∷◌ c s

-- One character put before a text whose trailing white space is gone.
abbrev pub cons_trimmed : Bool → Char → String → String
cons_trimmed true c String.[] = String.[]
cons_trimmed true c (String.◌∷◌ d t) = String.◌∷◌ c (String.◌∷◌ d t)
cons_trimmed false c t = String.◌∷◌ c t

unfoldable pub trim_end : String → String
unfolding is_whitespace
trim_end String.[] = String.[]
trim_end (String.◌∷◌ c s) = cons_trimmed (is_whitespace (code c)) c (trim_end s)

unfoldable pub trim : String → String
unfolding trim_start trim_end
trim s = trim_end (trim_start s)

-- `value.trim().is_empty()`
unfoldable pub is_blank : String → Bool
unfolding trim
is_blank s = is_empty (trim s)

trim_end-cons :
    (b : Bool) (c : Char) (t : String)
    → is_whitespace (code c) ≡ b
    → trim_end t ≡ t
    → trim_end (cons_trimmed b c t) ≡ cons_trimmed b c t
unfolding trim_end
trim_end-cons true c String.[] e h = refl
trim_end-cons true c (String.◌∷◌ d t) e h = rw e (ap (cons_trimmed true c) h)
trim_end-cons false c t e h = rw e (ap (String.◌∷◌ c) h)

trim_end-trim_end : (s : String) → trim_end (trim_end s) ≡ trim_end s
unfolding trim_end
trim_end-trim_end String.[] = refl
trim_end-trim_end (String.◌∷◌ c s) =
    trim_end-cons (is_whitespace (code c)) c (trim_end s) refl (trim_end-trim_end s)

-- A text that does not begin with white space.
abbrev IsStart : String → Type 0
IsStart String.[] = Unit
IsStart (String.◌∷◌ c s) = is_whitespace (code c) ≡ false

trim_start-IsStart : (s : String) → IsStart (trim_start s)
unfolding trim_start
trim_start-IsStart String.[] = tt
trim_start-IsStart (String.◌∷◌ c s) = elim (Bool-cases (is_whitespace (code c))) [
  | inl e ↦ rw e (trim_start-IsStart s)
  | inr e ↦ rw e e
]

trim_end-IsStart : (s : String) → IsStart s → IsStart (trim_end s)
unfolding trim_end
trim_end-IsStart String.[] h = tt
trim_end-IsStart (String.◌∷◌ c s) h = rw h h

trim_start_of_IsStart : (s : String) → IsStart s → trim_start s ≡ s
unfolding trim_start
trim_start_of_IsStart String.[] h = refl
trim_start_of_IsStart (String.◌∷◌ c s) h = rw h refl

-- Trimming twice is trimming once.
pub trim-trim : (s : String) → trim (trim s) ≡ trim s
unfolding trim
trim-trim s =
    ap trim_end (
      trim_start_of_IsStart (trim_end (trim_start s))
        (trim_end-IsStart (trim_start s) (trim_start-IsStart s)))
    ∙ trim_end-trim_end (trim_start s)
