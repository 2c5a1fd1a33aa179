-- ===== src/DataPlane/Names.antt =====
-- The texts that name LanceDB's enumerations: controller/src/server.rs writes them into the JSON requests, and
-- controller/src/core/lancedb.rs and client/src/client.rs read them.
use Prim.Native.Char.{Char, code}
use Prim.Native.String.{String, ◌++◌, char_at}
use vldb_controller.Base.{Option, none, some, List, [], ◌∷◌, ◌-◌, ◌&&◌, leb, if◌then◌else◌}
use vldb_controller.Base.Order.{eqb, str_ord}
use vldb_controller.Base.Text.{trim}
use vldb_controller.Base.Except.{Except, success, failure}
use vldb_controller.Types.{I64}
use vldb_controller.Wire.Enums.{
  ControllerLanceDbColumnType, unspecified, string, int64, float64, bool, vector_float32, float32,
  uint64, int32, uint32, ControllerLanceDbInputFormat, unspecified_input, json_rows_input,
  arrow_ipc_input, ControllerLanceDbOutputFormat, arrow_ipc_output, json_rows_output, match_value,
}
use vldb_controller.Server.Status.{Status, invalid_argument}

-- `to_ascii_lowercase`
abbrev lowercase : Char → Char
lowercase c =
    if leb 65 (code c) && leb (code c) 90
    then char_at "abcdefghijklmnopqrstuvwxyz" (code c - 65)
    else c

unfoldable pub to_ascii_lowercase : String → String
to_ascii_lowercase String.[] = String.[]
to_ascii_lowercase (String.◌∷◌ c s) = String.◌∷◌ (lowercase c) (to_ascii_lowercase s)

-- `match text { "…" => Ok(a), …, other => Err(…) }`, with its arms in a table.
unfoldable pub match_text {ℓ} : {A : Type ℓ} → List (String × A) → String → Option A
match_text [] text = none
match_text ((name, a) ∷ arms) text = if eqb text name then some a else match_text arms text

abbrev pub or_unsupported : {A : Type 0} → String → String → Option A → Except String A
or_unsupported what text (some a) = success a
or_unsupported what text none = failure ("unsupported " ++ what ++ ": " ++ text)

abbrev pub parse_text : {A : Type 0} → String → List (String × A) → String → Except String A
parse_text what arms value =
    or_unsupported what (to_ascii_lowercase (trim value))
      (match_text arms (to_ascii_lowercase (trim value)))

abbrev pub column_type_names : List (String × ControllerLanceDbColumnType)
column_type_names =
    ("string", string)
    ∷ ("int64", int64)
    ∷ ("float64", float64)
    ∷ ("bool", bool)
    ∷ ("boolean", bool)
    ∷ ("vector_float32", vector_float32)
    ∷ ("vector-float32", vector_float32)
    ∷ ("float32", float32)
    ∷ ("uint64", uint64)
    ∷ ("int32", int32)
    ∷ ("uint32", uint32)
    ∷ ("unspecified", unspecified)
    ∷ ("", unspecified)
    ∷ []

-- The controller's parsers. The values of vldb-lancedb's enumerations have the names of the controller's own.
unfoldable pub parse_column_type : String → Except String ControllerLanceDbColumnType
unfolding to_ascii_lowercase match_text
parse_column_type value = parse_text "column_type" column_type_names value

unfoldable pub parse_input_format : String → Except String ControllerLanceDbInputFormat
unfolding to_ascii_lowercase match_text
parse_input_format value =
    parse_text "input_format"
      (("", json_rows_input)
        ∷ ("unspecified", json_rows_input)
        ∷ ("json", json_rows_input)
        ∷ ("json_rows", json_rows_input)
        ∷ ("json-rows", json_rows_input)
        ∷ ("arrow", arrow_ipc_input)
        ∷ ("arrow_ipc", arrow_ipc_input)
        ∷ ("arrow-ipc", arrow_ipc_input)
        ∷ [])
      value

abbrev output_format_names : List (String × ControllerLanceDbOutputFormat)
output_format_names =
    ("", arrow_ipc_output)
    ∷ ("unspecified", arrow_ipc_output)
    ∷ ("arrow", arrow_ipc_output)
    ∷ ("arrow_ipc", arrow_ipc_output)
    ∷ ("arrow-ipc", arrow_ipc_output)
    ∷ ("json", json_rows_output)
    ∷ ("json_rows", json_rows_output)
    ∷ ("json-rows", json_rows_output)
    ∷ []

unfoldable pub parse_output_format : String → Except String ControllerLanceDbOutputFormat
unfolding to_ascii_lowercase match_text
parse_output_format value = parse_text "output_format" output_format_names value

-- The client's parsers, which keep an input format that is not specified.
unfoldable pub parse_lancedb_column_type : String → Except String ControllerLanceDbColumnType
unfolding to_ascii_lowercase match_text
parse_lancedb_column_type value =
    parse_text "column_type"
      (("", unspecified)
        ∷ ("unspecified", unspecified)
        ∷ ("string", string)
        ∷ ("int64", int64)
        ∷ ("float64", float64)
        ∷ ("bool", bool)
        ∷ ("boolean", bool)
        ∷ ("vector_float32", vector_float32)
        ∷ ("vector-float32", vector_float32)
        ∷ ("float32", float32)
        ∷ ("uint64", uint64)
        ∷ ("int32", int32)
        ∷ ("uint32", uint32)
        ∷ [])
      value

unfoldable pub parse_lancedb_input_format : String → Except String ControllerLanceDbInputFormat
unfolding to_ascii_lowercase match_text
parse_lancedb_input_format value =
    parse_text "input_format"
      (("", unspecified_input)
        ∷ ("unspecified", unspecified_input)
        ∷ ("json", json_rows_input)
        ∷ ("json_rows", json_rows_input)
        ∷ ("json-rows", json_rows_input)
        ∷ ("arrow", arrow_ipc_input)
        ∷ ("arrow_ipc", arrow_ipc_input)
        ∷ ("arrow-ipc", arrow_ipc_input)
        ∷ [])
      value

unfoldable pub parse_lancedb_output_format : String → Except String ControllerLanceDbOutputFormat
unfolding to_ascii_lowercase match_text
parse_lancedb_output_format value = parse_text "output_format" output_format_names value

-- The server's names for the numbers of the messages.
abbrev or_refused : {A : Type 0} → String → Option A → Except Status A
or_refused text (some a) = success a
or_refused text none = failure (record { code = invalid_argument; text = text })

unfoldable pub proto_lancedb_column_type_name : I64 → Except Status String
proto_lancedb_column_type_name raw_kind = or_refused "unsupported lancedb column type value" (
    match_value
      ((0, "unspecified")
        ∷ (1, "string")
        ∷ (2, "int64")
        ∷ (3, "float64")
        ∷ (4, "bool")
        ∷ (5, "vector_float32")
        ∷ (6, "float32")
        ∷ (7, "uint64")
        ∷ (8, "int32")
        ∷ (9, "uint32")
        ∷ [])
      raw_kind)

unfoldable pub proto_lancedb_input_format_name : I64 → Except Status String
proto_lancedb_input_format_name raw_kind =
    or_refused "unsupported lancedb input_format value"
      (match_value ((0, "unspecified") ∷ (1, "json_rows") ∷ (2, "arrow_ipc") ∷ []) raw_kind)

unfoldable pub proto_lancedb_output_format_name : I64 → Except Status String
proto_lancedb_output_format_name raw_kind =
    or_refused "unsupported lancedb output_format value"
      (match_value ((0, "unspecified") ∷ (1, "arrow_ipc") ∷ (2, "json_rows") ∷ []) raw_kind)
