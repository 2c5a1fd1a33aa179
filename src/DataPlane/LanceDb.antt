-- ===== src/DataPlane/LanceDb.antt =====
-- controller/src/core/lancedb.rs: the methods of a LanceDB backend. What serde_json and vldb-lancedb do is in
-- `LanceDbUpstream`; a number of type f32 is its 32 bits. Of the engine's results the source reads the fields that
-- the results here have, and copies them.
use Prim.Native.String.{◌++◌}
use vldb_controller.Base.{ℕ, String, Bool, true, List}
use vldb_controller.Base.Except.{Except, success, failure, map_except, traverse}
use vldb_controller.Wire.Enums.{
  ControllerLanceDbColumnType, ControllerLanceDbInputFormat, ControllerLanceDbOutputFormat,
}
use vldb_controller.Runtime.Fault.{
  Error, unsupported_input, unreadable_request, engine_failed, Result, ok, err, ◌>>=◌,
}
use vldb_controller.Runtime.State.{Backend}
use vldb_controller.DataPlane.Names.{parse_column_type, parse_input_format, parse_output_format}
use vldb_controller.DataPlane.Results.{
  ControllerLanceDbCreateTableResult, ControllerLanceDbUpsertResult, ControllerLanceDbSearchResult,
  ControllerLanceDbDeleteResult, ControllerLanceDbDropTableResult,
}

pub record CreateTableJsonColumn : Type 0 where
  pub name : String
  pub column_type : String
  pub vector_dim : ℕ
  pub nullable : Bool

pub record CreateTableJsonInput : Type 0 where
  pub table_name : String
  pub columns : List CreateTableJsonColumn
  pub overwrite_if_exists : Bool

pub record UpsertJsonInput : Type 0 where
  pub table_name : String
  pub input_format : String
  pub key_columns : List String

pub record SearchJsonInput : Type 0 where
  pub table_name : String
  pub vector : List ℕ
  pub limit : ℕ
  pub filter : String
  pub vector_column : String
  pub output_format : String

pub record DeleteJsonInput : Type 0 where
  pub table_name : String
  pub condition : String

-- The requests of vldb-lancedb.
pub record LanceDbColumnDef : Type 0 where
  pub name : String
  pub column_type : ControllerLanceDbColumnType
  pub vector_dim : ℕ
  pub nullable : Bool

pub record LanceDbCreateTableInput : Type 0 where
  pub table_name : String
  pub columns : List LanceDbColumnDef
  pub overwrite_if_exists : Bool

pub record LanceDbUpsertInput : Type 0 where
  pub table_name : String
  pub input_format : ControllerLanceDbInputFormat
  pub bytes : List ℕ
  pub key_columns : List String

pub record LanceDbSearchInput : Type 0 where
  pub table_name : String
  pub vector : List ℕ
  pub limit : ℕ
  pub filter : String
  pub vector_column : String
  pub output_format : ControllerLanceDbOutputFormat

pub data LanceDbEngineError : Type 0 where
  invalid_argument_error internal_error : String → LanceDbEngineError

-- `LanceDbDeleteInput` has the fields of `DeleteJsonInput`, and the input of `drop_table` is the name. The parsers
-- get what a column without `nullable` and a search without `limit` have.
pub record LanceDbUpstream : Type 0 where
  pub parse_create_table : Bool → String → Except String CreateTableJsonInput
  pub parse_upsert : String → Except String UpsertJsonInput
  pub parse_search : ℕ → String → Except String SearchJsonInput
  pub parse_delete : String → Except String DeleteJsonInput
  pub open_default_engine : Backend → Result ℕ
  pub engine_create_table :
      ℕ → LanceDbCreateTableInput → Except LanceDbEngineError ControllerLanceDbCreateTableResult
  pub engine_upsert :
      ℕ → LanceDbUpsertInput → Except LanceDbEngineError ControllerLanceDbUpsertResult
  pub engine_search :
      ℕ → LanceDbSearchInput → Except LanceDbEngineError ControllerLanceDbSearchResult
  pub engine_delete : ℕ → DeleteJsonInput → Except LanceDbEngineError ControllerLanceDbDeleteResult
  pub engine_drop_table : ℕ → String → Except LanceDbEngineError ControllerLanceDbDropTableResult

unfoldable pub default_nullable : Bool
default_nullable = true

unfoldable pub default_search_limit : ℕ
default_search_limit = 10

unfoldable pub parse_json_input : {A : Type 0} → Except String A → Result A
parse_json_input (success input) = ok input
parse_json_input (failure error) =
    err (unreadable_request ("failed to parse lancedb request_json: " ++ error))

unfoldable pub engine_error_to_box : LanceDbEngineError → Error
engine_error_to_box (invalid_argument_error text) = unsupported_input text
engine_error_to_box (internal_error text) = engine_failed text

abbrev from_engine : {A : Type 0} → Except LanceDbEngineError A → Result A
unfolding engine_error_to_box
from_engine (success result) = ok result
from_engine (failure error) = err (engine_error_to_box error)

-- `invalid_input` of the text with which a parser refuses.
abbrev from_parser : {A : Type 0} → Except String A → Result A
from_parser (success a) = ok a
from_parser (failure text) = err (unsupported_input text)

unfoldable pub map_create_table_column : CreateTableJsonColumn → Except String LanceDbColumnDef
unfolding parse_column_type
map_create_table_column input =
    map_except
      (λ column_type. record {
        name = input.name;
        column_type = column_type;
        vector_dim = input.vector_dim;
        nullable = input.nullable;
      })
      (parse_column_type input.column_type)

unfoldable pub map_create_table_input : CreateTableJsonInput → Except String LanceDbCreateTableInput
unfolding map_create_table_column traverse
map_create_table_input input =
    map_except
      (λ columns. record {
        table_name = input.table_name;
        columns = columns;
        overwrite_if_exists = input.overwrite_if_exists;
      })
      (traverse map_create_table_column input.columns)

unfoldable pub map_upsert_input : UpsertJsonInput → List ℕ → Except String LanceDbUpsertInput
unfolding parse_input_format
map_upsert_input input bytes =
    map_except
      (λ input_format. record {
        table_name = input.table_name;
        input_format = input_format;
        bytes = bytes;
        key_columns = input.key_columns;
      })
      (parse_input_format input.input_format)

unfoldable pub map_search_input : SearchJsonInput → Except String LanceDbSearchInput
unfolding parse_output_format
map_search_input input =
    map_except
      (λ output_format. record {
        table_name = input.table_name;
        vector = input.vector;
        limit = input.limit;
        filter = input.filter;
        vector_column = input.vector_column;
        output_format = output_format;
      })
      (parse_output_format input.output_format)

module _ (engine : LanceDbUpstream) where
  open engine use {
    parse_create_table, parse_upsert, parse_search, parse_delete, open_default_engine,
    engine_create_table, engine_upsert, engine_search, engine_delete, engine_drop_table,
  }

  unfoldable pub create_table : String → Backend → Result ControllerLanceDbCreateTableResult
  unfolding parse_json_input default_nullable map_create_table_input engine_error_to_box
  create_table request_json backend =
      (parse_json_input (parse_create_table default_nullable request_json)) >>= λ request.
      (from_parser (map_create_table_input request)) >>= λ input.
      (open_default_engine backend) >>= λ opened. from_engine (engine_create_table opened input)

  unfoldable pub upsert : String → List ℕ → Backend → Result ControllerLanceDbUpsertResult
  unfolding parse_json_input map_upsert_input engine_error_to_box
  upsert request_json bytes backend = (parse_json_input (parse_upsert request_json)) >>= λ request.
      (from_parser (map_upsert_input request bytes)) >>= λ input.
      (open_default_engine backend) >>= λ opened. from_engine (engine_upsert opened input)

  unfoldable pub search : String → Backend → Result ControllerLanceDbSearchResult
  unfolding parse_json_input default_search_limit map_search_input engine_error_to_box
  search request_json backend =
      (parse_json_input (parse_search default_search_limit request_json)) >>= λ request.
      (from_parser (map_search_input request)) >>= λ input.
      (open_default_engine backend) >>= λ opened. from_engine (engine_search opened input)

  unfoldable pub delete : String → Backend → Result ControllerLanceDbDeleteResult
  unfolding parse_json_input engine_error_to_box
  delete request_json backend = (parse_json_input (parse_delete request_json)) >>= λ request.
      (open_default_engine backend) >>= λ opened. from_engine (engine_delete opened request)

  unfoldable pub drop_table : String → Backend → Result ControllerLanceDbDropTableResult
  unfolding engine_error_to_box
  drop_table table_name backend =
      (open_default_engine backend) >>= λ opened. from_engine (engine_drop_table opened table_name)
