-- ===== src/Server/Data.antt =====
-- controller/src/server.rs: the handlers of the data plane for SQLite. The fields of the messages are the
-- arguments; the fields of the responses are those of the results.
use Prim.Native.String.{◌++◌}
use vldb_controller.Base.{ℕ, String, Option, none, some, Bool, List, [], ◌∷◌}
use vldb_controller.Base.Except.{Except, success, failure, traverse}
use vldb_controller.Types.{I64}
use vldb_controller.Wire.Enums.{ControllerSqliteTokenizerMode, no_tokenizer, jieba, match_value}
use vldb_controller.Runtime.Fault.{Result, ok, err, panic}
use vldb_controller.Runtime.State.{ControllerState, VldbControllerRuntime}
use vldb_controller.Server.Status.{
  Status, invalid_argument, internal, Reply, response, refused, map_box_error, box_error,
  optional_client_session_id,
}
use vldb_controller.Server.Handlers.{Clock, Handler, with_request}
use vldb_controller.DataPlane.Results.{
  ControllerSqliteValue, ControllerSqliteDictionaryMutationResult,
  ControllerSqliteEnsureFtsIndexResult, ControllerSqliteExecuteBatchResult,
  ControllerSqliteExecuteResult, ControllerSqliteFtsMutationResult,
  ControllerSqliteListCustomWordsResult, ControllerSqliteQueryResult,
  ControllerSqliteRebuildFtsIndexResult, ControllerSqliteSearchFtsResult,
  ControllerSqliteTokenizeResult,
}
use vldb_controller.DataPlane.Sqlite.{SqliteUpstream}
use vldb_controller.DataPlane.Methods.{
  execute_sqlite_script_typed, execute_sqlite_batch_typed, query_sqlite_json_typed,
  tokenize_sqlite_text, list_sqlite_custom_words, upsert_sqlite_custom_word,
  remove_sqlite_custom_word, ensure_sqlite_fts_index, rebuild_sqlite_fts_index,
  upsert_sqlite_fts_document, delete_sqlite_fts_document, search_sqlite_fts,
}

-- The `kind` of a protobuf value, which a message may leave out.
pub record ProtoSqliteValue : Type 0 where
  pub kind : Option ControllerSqliteValue

unfoldable pub proto_sqlite_value_to_typed : ProtoSqliteValue → Except Status ControllerSqliteValue
proto_sqlite_value_to_typed value = elim value.kind [
  | some kind ↦ success kind
  | none ↦ failure (record {
    code = invalid_argument;
    text = "sqlite value kind must be set for every parameter";
  })
]

abbrev or_mode : Option ControllerSqliteTokenizerMode → Except Status ControllerSqliteTokenizerMode
or_mode (some mode) = success mode
or_mode none =
    failure (record { code = invalid_argument; text = "tokenizer_mode must be none or jieba" })

unfoldable pub map_sqlite_tokenizer_mode : I64 → Except Status ControllerSqliteTokenizerMode
map_sqlite_tokenizer_mode raw_mode =
    or_mode (match_value ((1, no_tokenizer) ∷ (2, jieba) ∷ []) raw_mode)

-- On the pool of blocking threads a panic is an error of the task.
unfoldable pub run_sqlite_blocking : {A : Type 0} → Result A → Reply A
unfolding map_box_error box_error
run_sqlite_blocking (ok a) = response a
run_sqlite_blocking (err e) = refused (map_box_error (box_error e))
run_sqlite_blocking (panic text) =
    refused (record { code = internal; text = "blocking task panicked: " ++ text })

-- What the message says is decoded after the request has begun.
abbrev pub decoding : {D A : Type 0} → Except Status D → (D → ControllerState → Reply A) → Handler A
decoding (success d) answer state = (answer d state, state)
decoding (failure status) answer state = (refused status, state)

module _ (runtime : VldbControllerRuntime) (clock : Clock) (upstream : SqliteUpstream)
    (client_session_id space_id binding_id : String) where
  unfoldable pub execute_sqlite_script_handler :
      String → List ProtoSqliteValue → Handler ControllerSqliteExecuteResult
  unfolding with_request run_sqlite_blocking execute_sqlite_script_typed optional_client_session_id
      traverse proto_sqlite_value_to_typed
  execute_sqlite_script_handler sql params =
      with_request runtime clock (optional_client_session_id client_session_id) (
        decoding (traverse proto_sqlite_value_to_typed params) (λ params state.
          run_sqlite_blocking (
            execute_sqlite_script_typed state space_id binding_id
              (optional_client_session_id client_session_id) upstream sql params)))

  unfoldable pub execute_sqlite_batch_handler :
      String → List (List ProtoSqliteValue) → Handler ControllerSqliteExecuteBatchResult
  unfolding with_request run_sqlite_blocking execute_sqlite_batch_typed optional_client_session_id
      traverse proto_sqlite_value_to_typed
  execute_sqlite_batch_handler sql batch_params =
      with_request runtime clock (optional_client_session_id client_session_id) (
        decoding (traverse (traverse proto_sqlite_value_to_typed) batch_params)
          (λ batch_params state. run_sqlite_blocking (
            execute_sqlite_batch_typed state space_id binding_id
              (optional_client_session_id client_session_id) upstream sql batch_params)))

  unfoldable pub query_sqlite_json_handler :
      String → List ProtoSqliteValue → Handler ControllerSqliteQueryResult
  unfolding with_request run_sqlite_blocking query_sqlite_json_typed optional_client_session_id
      traverse proto_sqlite_value_to_typed
  query_sqlite_json_handler sql params =
      with_request runtime clock (optional_client_session_id client_session_id) (
        decoding (traverse proto_sqlite_value_to_typed params) (λ params state.
          run_sqlite_blocking (
            query_sqlite_json_typed state space_id binding_id
              (optional_client_session_id client_session_id) upstream sql params)))

  unfoldable pub tokenize_sqlite_text_handler :
      I64 → String → Bool → Handler ControllerSqliteTokenizeResult
  unfolding with_request run_sqlite_blocking tokenize_sqlite_text optional_client_session_id
      map_sqlite_tokenizer_mode
  tokenize_sqlite_text_handler tokenizer_mode text search_mode =
      with_request runtime clock (optional_client_session_id client_session_id) (
        decoding (map_sqlite_tokenizer_mode tokenizer_mode) (λ tokenizer_mode state.
          run_sqlite_blocking (
            tokenize_sqlite_text state space_id binding_id
              (optional_client_session_id client_session_id) upstream tokenizer_mode text
              search_mode)))

  unfoldable pub list_sqlite_custom_words_handler : Handler ControllerSqliteListCustomWordsResult
  unfolding with_request run_sqlite_blocking list_sqlite_custom_words optional_client_session_id
  list_sqlite_custom_words_handler =
      with_request runtime clock (optional_client_session_id client_session_id) (
        decoding (success tt) (λ u state. run_sqlite_blocking (
          list_sqlite_custom_words state space_id binding_id
            (optional_client_session_id client_session_id) upstream)))

  unfoldable pub upsert_sqlite_custom_word_handler :
      String → ℕ → Handler ControllerSqliteDictionaryMutationResult
  unfolding with_request run_sqlite_blocking upsert_sqlite_custom_word optional_client_session_id
  upsert_sqlite_custom_word_handler word weight =
      with_request runtime clock (optional_client_session_id client_session_id) (
        decoding (success tt) (λ u state. run_sqlite_blocking (
          upsert_sqlite_custom_word state space_id binding_id
            (optional_client_session_id client_session_id) upstream word weight)))

  unfoldable pub remove_sqlite_custom_word_handler :
      String → Handler ControllerSqliteDictionaryMutationResult
  unfolding with_request run_sqlite_blocking remove_sqlite_custom_word optional_client_session_id
  remove_sqlite_custom_word_handler word =
      with_request runtime clock (optional_client_session_id client_session_id) (
        decoding (success tt) (λ u state. run_sqlite_blocking (
          remove_sqlite_custom_word state space_id binding_id
            (optional_client_session_id client_session_id) upstream word)))

  unfoldable pub ensure_sqlite_fts_index_handler :
      String → I64 → Handler ControllerSqliteEnsureFtsIndexResult
  unfolding with_request run_sqlite_blocking ensure_sqlite_fts_index optional_client_session_id
      map_sqlite_tokenizer_mode
  ensure_sqlite_fts_index_handler index_name tokenizer_mode =
      with_request runtime clock (optional_client_session_id client_session_id) (
        decoding (map_sqlite_tokenizer_mode tokenizer_mode) (λ tokenizer_mode state.
          run_sqlite_blocking (
            ensure_sqlite_fts_index state space_id binding_id
              (optional_client_session_id client_session_id) upstream index_name tokenizer_mode)))

  unfoldable pub rebuild_sqlite_fts_index_handler :
      String → I64 → Handler ControllerSqliteRebuildFtsIndexResult
  unfolding with_request run_sqlite_blocking rebuild_sqlite_fts_index optional_client_session_id
      map_sqlite_tokenizer_mode
  rebuild_sqlite_fts_index_handler index_name tokenizer_mode =
      with_request runtime clock (optional_client_session_id client_session_id) (
        decoding (map_sqlite_tokenizer_mode tokenizer_mode) (λ tokenizer_mode state.
          run_sqlite_blocking (
            rebuild_sqlite_fts_index state space_id binding_id
              (optional_client_session_id client_session_id) upstream index_name tokenizer_mode)))

  unfoldable pub upsert_sqlite_fts_document_handler :
      String → I64 → String → String → String → String → Handler ControllerSqliteFtsMutationResult
  unfolding with_request run_sqlite_blocking upsert_sqlite_fts_document optional_client_session_id
      map_sqlite_tokenizer_mode
  upsert_sqlite_fts_document_handler index_name tokenizer_mode id file_path title content =
      with_request runtime clock (optional_client_session_id client_session_id) (
        decoding (map_sqlite_tokenizer_mode tokenizer_mode) (λ tokenizer_mode state.
          run_sqlite_blocking (
            upsert_sqlite_fts_document state space_id binding_id
              (optional_client_session_id client_session_id) upstream index_name tokenizer_mode id
              file_path title content)))

  unfoldable pub delete_sqlite_fts_document_handler :
      String → String → Handler ControllerSqliteFtsMutationResult
  unfolding with_request run_sqlite_blocking delete_sqlite_fts_document optional_client_session_id
  delete_sqlite_fts_document_handler index_name id =
      with_request runtime clock (optional_client_session_id client_session_id) (
        decoding (success tt) (λ u state. run_sqlite_blocking (
          delete_sqlite_fts_document state space_id binding_id
            (optional_client_session_id client_session_id) upstream index_name id)))

  unfoldable pub search_sqlite_fts_handler :
      String → I64 → String → ℕ → ℕ → Handler ControllerSqliteSearchFtsResult
  unfolding with_request run_sqlite_blocking search_sqlite_fts optional_client_session_id
      map_sqlite_tokenizer_mode
  search_sqlite_fts_handler index_name tokenizer_mode query limit offset =
      with_request runtime clock (optional_client_session_id client_session_id) (
        decoding (map_sqlite_tokenizer_mode tokenizer_mode) (λ tokenizer_mode state.
          run_sqlite_blocking (
            search_sqlite_fts state space_id binding_id
              (optional_client_session_id client_session_id) upstream index_name tokenizer_mode
              query limit offset)))
