-- ===== src/Wire/Enums.antt =====
-- client/src/types.rs: the enumerations that go over the wire, and their numbers. A number is an `i32`.
use Prim.Native.String.{◌++◌}
use vldb_controller.Base.{ℕ, suc, String, Option, none, some, List, [], ◌∷◌, ◌==◌, if◌then◌else◌}
use vldb_controller.Base.Format.{decimal}
use vldb_controller.Base.Except.{Except, success, failure}
use vldb_controller.Types.{
  I64, nonnegative, negative, ControllerProcessMode, service, managed, SpaceKind, root, user,
  project,
}

pub data ControllerSqliteTokenizerMode : Type 0 where
  no_tokenizer jieba : ControllerSqliteTokenizerMode

pub data ControllerLanceDbColumnType : Type 0 where
  unspecified string int64 float64 bool vector_float32 float32 uint64 int32 uint32 :
      ControllerLanceDbColumnType

pub data ControllerLanceDbInputFormat : Type 0 where
  unspecified_input json_rows_input arrow_ipc_input : ControllerLanceDbInputFormat

pub data ControllerLanceDbOutputFormat : Type 0 where
  unspecified_output arrow_ipc_output json_rows_output : ControllerLanceDbOutputFormat

abbrev pub show_number : I64 → String
show_number (nonnegative n) = decimal n
show_number (negative n) = "-" ++ decimal (suc n)

-- `match value { n => Ok(a), …, _ => Err(…) }`, with its arms in a table.
unfoldable pub match_number {ℓ} : {A : Type ℓ} → List (ℕ × A) → ℕ → Option A
match_number [] value = none
match_number ((n, a) ∷ arms) value = if value == n then some a else match_number arms value

abbrev pub match_value {ℓ} : {A : Type ℓ} → List (ℕ × A) → I64 → Option A
match_value arms (nonnegative n) = match_number arms n
match_value arms (negative n) = none

abbrev pub or_invalid : {A : Type 0} → String → I64 → Option A → Except String A
or_invalid what value (some a) = success a
or_invalid what value none = failure ("invalid " ++ what ++ ": " ++ show_number value)

unfoldable pub process_mode_to_proto_value : ControllerProcessMode → I64
process_mode_to_proto_value service = nonnegative 1
process_mode_to_proto_value managed = nonnegative 2

abbrev pub process_mode_arms : List (ℕ × ControllerProcessMode)
process_mode_arms = (1, service) ∷ (2, managed) ∷ []

unfoldable pub process_mode_from_proto_value : I64 → Except String ControllerProcessMode
unfolding match_number
process_mode_from_proto_value value =
    or_invalid "process mode" value (match_value process_mode_arms value)

unfoldable pub space_kind_to_proto_value : SpaceKind → I64
space_kind_to_proto_value root = nonnegative 1
space_kind_to_proto_value user = nonnegative 2
space_kind_to_proto_value project = nonnegative 3

abbrev pub space_kind_arms : List (ℕ × SpaceKind)
space_kind_arms = (1, root) ∷ (2, user) ∷ (3, project) ∷ []

unfoldable pub space_kind_from_proto_value : I64 → Except String SpaceKind
unfolding match_number
space_kind_from_proto_value value =
    or_invalid "space kind" value (match_value space_kind_arms value)

unfoldable pub tokenizer_mode_to_proto_value : ControllerSqliteTokenizerMode → I64
tokenizer_mode_to_proto_value no_tokenizer = nonnegative 1
tokenizer_mode_to_proto_value jieba = nonnegative 2

abbrev pub tokenizer_mode_arms : List (ℕ × ControllerSqliteTokenizerMode)
tokenizer_mode_arms = (1, no_tokenizer) ∷ (2, jieba) ∷ []

unfoldable pub tokenizer_mode_from_proto_value : I64 → Except String ControllerSqliteTokenizerMode
unfolding match_number
tokenizer_mode_from_proto_value value =
    or_invalid "tokenizer mode" value (match_value tokenizer_mode_arms value)

unfoldable pub column_type_to_proto_value : ControllerLanceDbColumnType → I64
column_type_to_proto_value unspecified = nonnegative 0
column_type_to_proto_value string = nonnegative 1
column_type_to_proto_value int64 = nonnegative 2
column_type_to_proto_value float64 = nonnegative 3
column_type_to_proto_value bool = nonnegative 4
column_type_to_proto_value vector_float32 = nonnegative 5
column_type_to_proto_value float32 = nonnegative 6
column_type_to_proto_value uint64 = nonnegative 7
column_type_to_proto_value int32 = nonnegative 8
column_type_to_proto_value uint32 = nonnegative 9

abbrev pub column_type_arms : List (ℕ × ControllerLanceDbColumnType)
column_type_arms =
    (0, unspecified)
    ∷ (1, string)
    ∷ (2, int64)
    ∷ (3, float64)
    ∷ (4, bool)
    ∷ (5, vector_float32)
    ∷ (6, float32)
    ∷ (7, uint64)
    ∷ (8, int32)
    ∷ (9, uint32)
    ∷ []

unfoldable pub column_type_from_proto_value : I64 → Except String ControllerLanceDbColumnType
unfolding match_number
column_type_from_proto_value value =
    or_invalid "column type" value (match_value column_type_arms value)

unfoldable pub input_format_to_proto_value : ControllerLanceDbInputFormat → I64
input_format_to_proto_value unspecified_input = nonnegative 0
input_format_to_proto_value json_rows_input = nonnegative 1
input_format_to_proto_value arrow_ipc_input = nonnegative 2

abbrev pub input_format_arms : List (ℕ × ControllerLanceDbInputFormat)
input_format_arms = (0, unspecified_input) ∷ (1, json_rows_input) ∷ (2, arrow_ipc_input) ∷ []

unfoldable pub input_format_from_proto_value : I64 → Except String ControllerLanceDbInputFormat
unfolding match_number
input_format_from_proto_value value =
    or_invalid "input format" value (match_value input_format_arms value)

unfoldable pub output_format_to_proto_value : ControllerLanceDbOutputFormat → I64
output_format_to_proto_value unspecified_output = nonnegative 0
output_format_to_proto_value arrow_ipc_output = nonnegative 1
output_format_to_proto_value json_rows_output = nonnegative 2

abbrev pub output_format_arms : List (ℕ × ControllerLanceDbOutputFormat)
output_format_arms = (0, unspecified_output) ∷ (1, arrow_ipc_output) ∷ (2, json_rows_output) ∷ []

unfoldable pub output_format_from_proto_value : I64 → Except String ControllerLanceDbOutputFormat
unfolding match_number
output_format_from_proto_value value =
    or_invalid "output format" value (match_value output_format_arms value)
