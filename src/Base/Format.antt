-- ===== src/Base/Format.antt =====
-- `format!` of numbers and Booleans, and `str::replace` of one character.
use Prim.Native.Nat.{ℕ, zero, suc, ◌/◌, ◌%◌}
use Prim.Native.Char.{Char, code}
use Prim.Native.String.{String, ◌++◌}
use mathlib.Core.Bool.{Bool, true, false}
use mathlib.Core.Option.{Option, none, some}
use vldb_controller.Base.Tests.{ltb, ◌==◌, if◌then◌else◌}

abbrev digit : ℕ → Char
digit n =
    if n == 0
    then "0"
    else if n == 1
    then "1"
    else if n == 2
    then "2"
    else if n == 3
    then "3"
    else if n == 4
    then "4"
    else if n == 5
    then "5"
    else if n == 6
    then "6"
    else if n == 7
    then "7"
    else if n == 8
    then "8"
    else "9"

-- The digits of `n` before the text `acc`; a number has fewer digits than `n + 1`.
decimal_onto : ℕ → ℕ → String → String
decimal_onto zero n acc = acc
decimal_onto (suc fuel) n acc =
    let more = decimal_onto fuel (n / 10) (String.◌∷◌ (digit (n % 10)) acc) in
    if ltb n 10 then String.◌∷◌ (digit n) acc else more

unfoldable pub decimal : ℕ → String
unfolding decimal_onto
decimal n = decimal_onto (suc n) n String.[]

abbrev pub show_bool : Bool → String
show_bool true = "true"
show_bool false = "false"

-- `{:?}` of an optional number.
unfoldable pub debug_option : Option ℕ → String
unfolding decimal
debug_option none = "None"
debug_option (some n) = "Some(" ++ decimal n ++ ")"

-- `replace('\\', "/")`
unfoldable pub forward_slashes : String → String
forward_slashes String.[] = String.[]
forward_slashes (String.◌∷◌ c s) = String.◌∷◌ (if code c == 92 then "/" else c) (forward_slashes s)
