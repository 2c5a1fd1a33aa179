-- ===== src/DataPlane/Formats.antt =====
-- LanceDB's enumerations on their way from the client to the database.
use vldb_controller.Base.{String, ◌≡◌, refl}
use vldb_controller.Base.Order.{str_cmp}
use vldb_controller.Base.Text.{trim}
use vldb_controller.Base.Except.{Except, success, failure}
use vldb_controller.Wire.Enums.{
  ControllerLanceDbColumnType, unspecified, string, int64, float64, bool, vector_float32, float32,
  uint64, int32, uint32, ControllerLanceDbInputFormat, unspecified_input, json_rows_input,
  arrow_ipc_input, ControllerLanceDbOutputFormat, unspecified_output, arrow_ipc_output,
  json_rows_output, match_number, column_type_to_proto_value, input_format_to_proto_value,
  output_format_to_proto_value,
}
use vldb_controller.Server.Status.{Status}
use vldb_controller.DataPlane.Names.{
  parse_column_type, parse_input_format, parse_output_format, parse_lancedb_column_type,
  parse_lancedb_input_format, parse_lancedb_output_format, proto_lancedb_column_type_name,
  proto_lancedb_input_format_name, proto_lancedb_output_format_name,
}

-- What a parser reads of a name that the server may have.
abbrev pub Reads : {A : Type 0} → (String → Except String A) → Except Status String → A → Type 0
Reads parse (success name) a = parse name ≡ success a
Reads parse (failure status) a = ⊥

-- What LanceDB takes for a format that is not specified.
abbrev pub input_default : ControllerLanceDbInputFormat → ControllerLanceDbInputFormat
input_default unspecified_input = json_rows_input
input_default json_rows_input = json_rows_input
input_default arrow_ipc_input = arrow_ipc_input

abbrev pub output_default : ControllerLanceDbOutputFormat → ControllerLanceDbOutputFormat
output_default unspecified_output = arrow_ipc_output
output_default arrow_ipc_output = arrow_ipc_output
output_default json_rows_output = json_rows_output

column_type-Reads :
    (kind : ControllerLanceDbColumnType)
    → Reads parse_column_type
        (proto_lancedb_column_type_name (column_type_to_proto_value kind))
        kind
      × Reads parse_lancedb_column_type
          (proto_lancedb_column_type_name (column_type_to_proto_value kind))
          kind
unfolding parse_column_type parse_lancedb_column_type proto_lancedb_column_type_name
    column_type_to_proto_value match_number str_cmp trim
column_type-Reads unspecified = (refl, refl)
column_type-Reads string = (refl, refl)
column_type-Reads int64 = (refl, refl)
column_type-Reads float64 = (refl, refl)
column_type-Reads bool = (refl, refl)
column_type-Reads vector_float32 = (refl, refl)
column_type-Reads float32 = (refl, refl)
column_type-Reads uint64 = (refl, refl)
column_type-Reads int32 = (refl, refl)
column_type-Reads uint32 = (refl, refl)

input_format-Reads :
    (format : ControllerLanceDbInputFormat)
    → Reads parse_input_format
        (proto_lancedb_input_format_name (input_format_to_proto_value format))
        (input_default format)
      × Reads parse_lancedb_input_format
          (proto_lancedb_input_format_name (input_format_to_proto_value format))
          format
unfolding parse_input_format parse_lancedb_input_format proto_lancedb_input_format_name
    input_format_to_proto_value match_number str_cmp trim
input_format-Reads unspecified_input = (refl, refl)
input_format-Reads json_rows_input = (refl, refl)
input_format-Reads arrow_ipc_input = (refl, refl)

output_format-Reads :
    (format : ControllerLanceDbOutputFormat)
    → Reads parse_output_format
        (proto_lancedb_output_format_name (output_format_to_proto_value format))
        (output_default format)
      × Reads parse_lancedb_output_format
          (proto_lancedb_output_format_name (output_format_to_proto_value format))
          (output_default format)
unfolding parse_output_format parse_lancedb_output_format proto_lancedb_output_format_name
    output_format_to_proto_value match_number str_cmp trim
output_format-Reads unspecified_output = (refl, refl)
output_format-Reads arrow_ipc_output = (refl, refl)
output_format-Reads json_rows_output = (refl, refl)

-- A column type, an input format or an output format that the client sends as a number is named by the server
-- with a text that LanceDB's wrapper and the client's own JSON calls read as the same value; only a format
-- that is not specified becomes JSON rows for input, where the client's own calls keep it, and Arrow for
-- output.
pub enums-Reads :
    (kind : ControllerLanceDbColumnType) (input : ControllerLanceDbInputFormat)
    (output : ControllerLanceDbOutputFormat)
    → (Reads parse_column_type
          (proto_lancedb_column_type_name (column_type_to_proto_value kind))
          kind
        × Reads parse_lancedb_column_type
            (proto_lancedb_column_type_name (column_type_to_proto_value kind))
            kind)
      × (Reads parse_input_format
            (proto_lancedb_input_format_name (input_format_to_proto_value input))
            (input_default input)
          × Reads parse_lancedb_input_format
              (proto_lancedb_input_format_name (input_format_to_proto_value input))
              input)
      × (Reads parse_output_format
            (proto_lancedb_output_format_name (output_format_to_proto_value output))
            (output_default output)
          × Reads parse_lancedb_output_format
              (proto_lancedb_output_format_name (output_format_to_proto_value output))
              (output_default output))
enums-Reads kind input output =
    (column_type-Reads kind, input_format-Reads input, output_format-Reads output)
