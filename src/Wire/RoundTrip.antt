-- ===== src/Wire/RoundTrip.antt =====
-- client/src/types.rs: the numbers of the enumerations determine their values.
use vldb_controller.Base.{
  ℕ, String, Option, none, some, List, [], ◌∷◌, ◌≡◌, refl, ◌==◌, Bool-cases, inl, inr, arith,
}
use vldb_controller.Base.Except.{Except, success}
use vldb_controller.Types.{
  I64, nonnegative, negative, ControllerProcessMode, service, managed, SpaceKind, root, user,
  project,
}
use vldb_controller.Wire.Enums.{
  ControllerSqliteTokenizerMode, ControllerLanceDbColumnType, ControllerLanceDbInputFormat,
  ControllerLanceDbOutputFormat, no_tokenizer, jieba, unspecified, string, int64, float64, bool,
  vector_float32, float32, uint64, int32, uint32, unspecified_input, json_rows_input,
  arrow_ipc_input, unspecified_output, arrow_ipc_output, json_rows_output, match_number,
  match_value, or_invalid, process_mode_to_proto_value, process_mode_from_proto_value,
  process_mode_arms, space_kind_to_proto_value, space_kind_from_proto_value, space_kind_arms,
  tokenizer_mode_to_proto_value, tokenizer_mode_from_proto_value, tokenizer_mode_arms,
  column_type_to_proto_value, column_type_from_proto_value, column_type_arms,
  input_format_to_proto_value, input_format_from_proto_value, input_format_arms,
  output_format_to_proto_value, output_format_from_proto_value, output_format_arms,
}

-- Reading the number of a value gives the value back, and no other number is accepted for it.
abbrev pub IsNumbering : {A : Type 0} → (A → I64) → (I64 → Except String A) → Type 0
IsNumbering {A = A} to from =
    ((a : A) → from (to a) ≡ success a) × ((n : I64) (a : A) → from n ≡ success a → n ≡ to a)

-- The arms agree with the numbers of the values.
abbrev Agree : {A : Type 0} → (A → I64) → List (ℕ × A) → Type 0
Agree to [] = Unit
Agree to ((n, a) ∷ arms) = (nonnegative n ≡ to a) × Agree to arms

match_number-Agree :
    {A : Type 0} (to : A → I64) (arms : List (ℕ × A)) (n : ℕ) (a : A)
    → Agree to arms
    → match_number arms n ≡ some a
    → nonnegative n ≡ to a
unfolding match_number
match_number-Agree to [] n a h e = cc
match_number-Agree to ((k, b) ∷ arms) n a h e = elim (Bool-cases (n == k)) [
  | inl q ↦ ground (arith, h.0)
  | inr q ↦ match_number-Agree to arms n a h.1 (rw q at e)
]

from-Agree :
    {A : Type 0} (to : A → I64) (what : String) (arms : List (ℕ × A)) (n : I64) (a : A)
    → Agree to arms
    → or_invalid what n (match_value arms n) ≡ success a
    → n ≡ to a
from-Agree to what arms (nonnegative n) a h e = go (match_number arms n) refl e
  where
    go :
        (r : Option _)
        → match_number arms n ≡ r
        → or_invalid what (nonnegative n) r ≡ success a
        → nonnegative n ≡ to a
    go none q f = cc
    go (some b) q f = match_number-Agree to arms n a h (cc (q, f))
from-Agree to what arms (negative n) a h e = cc

process_mode-IsNumbering : IsNumbering process_mode_to_proto_value process_mode_from_proto_value
unfolding process_mode_from_proto_value process_mode_to_proto_value match_number
process_mode-IsNumbering = (
  there,
  λ n a. from-Agree process_mode_to_proto_value "process mode" process_mode_arms n a agree,
)
  where
    there :
        (a : ControllerProcessMode)
        → process_mode_from_proto_value (process_mode_to_proto_value a) ≡ success a
    there service = refl
    there managed = refl

    agree : Agree process_mode_to_proto_value process_mode_arms
    agree = (refl, (refl, tt))

space_kind-IsNumbering : IsNumbering space_kind_to_proto_value space_kind_from_proto_value
unfolding space_kind_from_proto_value space_kind_to_proto_value match_number
space_kind-IsNumbering =
    (there, λ n a. from-Agree space_kind_to_proto_value "space kind" space_kind_arms n a agree)
  where
    there : (a : SpaceKind) → space_kind_from_proto_value (space_kind_to_proto_value a) ≡ success a
    there root = refl
    there user = refl
    there project = refl

    agree : Agree space_kind_to_proto_value space_kind_arms
    agree = (refl, (refl, (refl, tt)))

tokenizer_mode-IsNumbering :
    IsNumbering tokenizer_mode_to_proto_value tokenizer_mode_from_proto_value
unfolding tokenizer_mode_from_proto_value tokenizer_mode_to_proto_value match_number
tokenizer_mode-IsNumbering = (
  there,
  λ n a. from-Agree tokenizer_mode_to_proto_value "tokenizer mode" tokenizer_mode_arms n a agree,
)
  where
    there :
        (a : ControllerSqliteTokenizerMode)
        → tokenizer_mode_from_proto_value (tokenizer_mode_to_proto_value a) ≡ success a
    there no_tokenizer = refl
    there jieba = refl

    agree : Agree tokenizer_mode_to_proto_value tokenizer_mode_arms
    agree = (refl, (refl, tt))

column_type-IsNumbering : IsNumbering column_type_to_proto_value column_type_from_proto_value
unfolding column_type_from_proto_value column_type_to_proto_value match_number
column_type-IsNumbering =
    (there, λ n a. from-Agree column_type_to_proto_value "column type" column_type_arms n a agree)
  where
    there :
        (a : ControllerLanceDbColumnType)
        → column_type_from_proto_value (column_type_to_proto_value a) ≡ success a
    there unspecified = refl
    there string = refl
    there int64 = refl
    there float64 = refl
    there bool = refl
    there vector_float32 = refl
    there float32 = refl
    there uint64 = refl
    there int32 = refl
    there uint32 = refl

    agree : Agree column_type_to_proto_value column_type_arms
    agree = (refl, (refl, (refl, (refl, (refl, (refl, (refl, (refl, (refl, (refl, tt))))))))))

input_format-IsNumbering : IsNumbering input_format_to_proto_value input_format_from_proto_value
unfolding input_format_from_proto_value input_format_to_proto_value match_number
input_format-IsNumbering = (
  there,
  λ n a. from-Agree input_format_to_proto_value "input format" input_format_arms n a agree,
)
  where
    there :
        (a : ControllerLanceDbInputFormat)
        → input_format_from_proto_value (input_format_to_proto_value a) ≡ success a
    there unspecified_input = refl
    there json_rows_input = refl
    there arrow_ipc_input = refl

    agree : Agree input_format_to_proto_value input_format_arms
    agree = (refl, (refl, (refl, tt)))

output_format-IsNumbering : IsNumbering output_format_to_proto_value output_format_from_proto_value
unfolding output_format_from_proto_value output_format_to_proto_value match_number
output_format-IsNumbering = (
  there,
  λ n a. from-Agree output_format_to_proto_value "output format" output_format_arms n a agree,
)
  where
    there :
        (a : ControllerLanceDbOutputFormat)
        → output_format_from_proto_value (output_format_to_proto_value a) ≡ success a
    there unspecified_output = refl
    there arrow_ipc_output = refl
    there json_rows_output = refl

    agree : Agree output_format_to_proto_value output_format_arms
    agree = (refl, (refl, (refl, tt)))

-- All six enumerations that go over the wire as numbers are read back from their numbers as they were,
-- and a number is read as a value only if it is the number of that value.
pub enums-IsNumbering :
    IsNumbering process_mode_to_proto_value process_mode_from_proto_value
    × IsNumbering space_kind_to_proto_value space_kind_from_proto_value
    × IsNumbering tokenizer_mode_to_proto_value tokenizer_mode_from_proto_value
    × IsNumbering column_type_to_proto_value column_type_from_proto_value
    × IsNumbering input_format_to_proto_value input_format_from_proto_value
    × IsNumbering output_format_to_proto_value output_format_from_proto_value
enums-IsNumbering = (
  process_mode-IsNumbering, space_kind-IsNumbering, tokenizer_mode-IsNumbering,
  column_type-IsNumbering, input_format-IsNumbering, output_format-IsNumbering,
)
