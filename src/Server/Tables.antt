-- ===== src/Server/Tables.antt =====
-- controller/src/server.rs: the handlers of the data plane for LanceDB. They write the JSON request that the methods of
-- the runtime read; its keys are the fields of the request's record.
use vldb_controller.Base.{ℕ, String, Bool, List}
use vldb_controller.Base.Except.{Except, success, failure, ◌>>=◌, map_except, traverse}
use vldb_controller.Types.{I64}
use vldb_controller.Runtime.State.{VldbControllerRuntime}
use vldb_controller.Server.Status.{Status, invalid_argument, reply, optional_client_session_id}
use vldb_controller.Server.Handlers.{Clock, Handler, with_request}
use vldb_controller.Server.Data.{decoding}
use vldb_controller.DataPlane.Results.{
  ControllerLanceDbCreateTableResult, ControllerLanceDbUpsertResult, ControllerLanceDbSearchResult,
  ControllerLanceDbDeleteResult, ControllerLanceDbDropTableResult,
}
use vldb_controller.DataPlane.LanceDb.{
  CreateTableJsonColumn, CreateTableJsonInput, UpsertJsonInput, SearchJsonInput, DeleteJsonInput,
  LanceDbUpstream,
}
use vldb_controller.DataPlane.Methods.{
  create_lancedb_table, upsert_lancedb, search_lancedb, delete_lancedb, drop_lancedb_table,
}
use vldb_controller.DataPlane.Names.{
  proto_lancedb_column_type_name, proto_lancedb_input_format_name, proto_lancedb_output_format_name,
}

pub record ProtoLanceDbColumnDef : Type 0 where
  pub name : String
  pub column_type : I64
  pub vector_dim : ℕ
  pub nullable : Bool

-- What serde_json writes for a request, or the text of its error.
pub record JsonWriter : Type 0 where
  pub create_table_text : CreateTableJsonInput → Except String String
  pub upsert_text : UpsertJsonInput → Except String String
  pub search_text : SearchJsonInput → Except String String
  pub delete_text : DeleteJsonInput → Except String String

unfoldable pub map_serde_error : {A : Type 0} → Except String A → Except Status A
map_serde_error (success a) = success a
map_serde_error (failure error) = failure (record { code = invalid_argument; text = error })

unfoldable pub proto_lancedb_column_to_json :
    ProtoLanceDbColumnDef → Except Status CreateTableJsonColumn
unfolding proto_lancedb_column_type_name
proto_lancedb_column_to_json column =
    map_except
      (λ column_type. record {
        name = column.name;
        column_type = column_type;
        vector_dim = column.vector_dim;
        nullable = column.nullable;
      })
      (proto_lancedb_column_type_name column.column_type)

module _ (json : JsonWriter) where
  unfoldable pub create_table_json :
      String → List ProtoLanceDbColumnDef → Bool → Except Status String
  unfolding map_serde_error traverse proto_lancedb_column_to_json
  create_table_json table_name columns overwrite_if_exists =
      traverse proto_lancedb_column_to_json columns >>= λ columns. map_serde_error (
        json.create_table_text (record {
          table_name = table_name;
          columns = columns;
          overwrite_if_exists = overwrite_if_exists;
        }))

  unfoldable pub upsert_json : String → I64 → List String → Except Status String
  unfolding map_serde_error proto_lancedb_input_format_name
  upsert_json table_name input_format key_columns =
      proto_lancedb_input_format_name input_format >>= λ input_format. map_serde_error (
        json.upsert_text (record {
          table_name = table_name;
          input_format = input_format;
          key_columns = key_columns;
        }))

  unfoldable pub search_json : String → List ℕ → ℕ → String → String → I64 → Except Status String
  unfolding map_serde_error proto_lancedb_output_format_name
  search_json table_name vector limit filter vector_column output_format =
      proto_lancedb_output_format_name output_format >>= λ output_format. map_serde_error (
        json.search_text (record {
          table_name = table_name;
          vector = vector;
          limit = limit;
          filter = filter;
          vector_column = vector_column;
          output_format = output_format;
        }))

  unfoldable pub delete_json : String → String → Except Status String
  unfolding map_serde_error
  delete_json table_name condition =
      map_serde_error (json.delete_text (record { table_name = table_name; condition = condition }))

module _ (runtime : VldbControllerRuntime) (clock : Clock) (engine : LanceDbUpstream)
    (json : JsonWriter) (client_session_id space_id binding_id : String) where
  unfoldable pub create_lance_db_table_handler :
      String → List ProtoLanceDbColumnDef → Bool → Handler ControllerLanceDbCreateTableResult
  unfolding with_request reply create_lancedb_table optional_client_session_id create_table_json
  create_lance_db_table_handler table_name columns overwrite_if_exists =
      with_request runtime clock (optional_client_session_id client_session_id) (
        decoding (create_table_json json table_name columns overwrite_if_exists)
          (λ request_json state.
            reply (λ a. a)
              (create_lancedb_table state space_id binding_id
                (optional_client_session_id client_session_id) engine request_json)))

  unfoldable pub upsert_lance_db_handler :
      String → I64 → List String → List ℕ → Handler ControllerLanceDbUpsertResult
  unfolding with_request reply upsert_lancedb optional_client_session_id upsert_json
  upsert_lance_db_handler table_name input_format key_columns bytes =
      with_request runtime clock (optional_client_session_id client_session_id) (
        decoding (upsert_json json table_name input_format key_columns) (λ request_json state.
          reply (λ a. a)
            (upsert_lancedb state space_id binding_id (optional_client_session_id client_session_id)
              engine request_json bytes)))

  unfoldable pub search_lance_db_handler :
      String → List ℕ → ℕ → String → String → I64 → Handler ControllerLanceDbSearchResult
  unfolding with_request reply search_lancedb optional_client_session_id search_json
  search_lance_db_handler table_name vector limit filter vector_column output_format =
      with_request runtime clock (optional_client_session_id client_session_id) (
        decoding (search_json json table_name vector limit filter vector_column output_format)
          (λ request_json state.
            reply (λ a. a)
              (search_lancedb state space_id binding_id
                (optional_client_session_id client_session_id) engine request_json)))

  unfoldable pub delete_lance_db_handler : String → String → Handler ControllerLanceDbDeleteResult
  unfolding with_request reply delete_lancedb optional_client_session_id delete_json
  delete_lance_db_handler table_name condition =
      with_request runtime clock (optional_client_session_id client_session_id) (
        decoding (delete_json json table_name condition) (λ request_json state.
          reply (λ a. a)
            (delete_lancedb state space_id binding_id (optional_client_session_id client_session_id)
              engine request_json)))

  unfoldable pub drop_lance_db_table_handler : String → Handler ControllerLanceDbDropTableResult
  unfolding with_request reply drop_lancedb_table optional_client_session_id
  drop_lance_db_table_handler table_name =
      with_request runtime clock (optional_client_session_id client_session_id) (
        decoding (success table_name) (λ table_name state.
          reply (λ a. a)
            (drop_lancedb_table state space_id binding_id
              (optional_client_session_id client_session_id) engine table_name)))
