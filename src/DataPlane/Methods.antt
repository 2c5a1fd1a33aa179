-- ===== src/DataPlane/Methods.antt =====
-- controller/src/core/runtime.rs: the data plane. Each method looks the backend up with the lock held, and calls
-- it after the lock is released.
use vldb_controller.Base.{ℕ, String, Option, Bool, List}
use vldb_controller.Wire.Enums.{ControllerSqliteTokenizerMode}
use vldb_controller.Runtime.Fault.{Result, ◌>>=◌}
use vldb_controller.Runtime.State.{ControllerState}
use vldb_controller.Runtime.Access.{sqlite_backend, lancedb_backend}
use vldb_controller.DataPlane.Results.{
  ControllerSqliteValue, ControllerLanceDbCreateTableResult, ControllerLanceDbDeleteResult,
  ControllerLanceDbDropTableResult, ControllerLanceDbSearchResult, ControllerLanceDbUpsertResult,
  ControllerSqliteDictionaryMutationResult, ControllerSqliteEnsureFtsIndexResult,
  ControllerSqliteExecuteBatchResult, ControllerSqliteExecuteResult,
  ControllerSqliteFtsMutationResult, ControllerSqliteListCustomWordsResult,
  ControllerSqliteQueryResult, ControllerSqliteRebuildFtsIndexResult,
  ControllerSqliteSearchFtsResult, ControllerSqliteTokenizeResult,
}
use vldb_controller.DataPlane.Sqlite
use vldb_controller.DataPlane.Sqlite.{SqliteUpstream}
use vldb_controller.DataPlane.LanceDb
use vldb_controller.DataPlane.LanceDb.{LanceDbUpstream}

module _ (state : ControllerState) (space_id binding_id : String) (client_id : Option String) where
  module _ (upstream : SqliteUpstream) where
    unfoldable pub execute_sqlite_script_typed :
        String → List ControllerSqliteValue → Result ControllerSqliteExecuteResult
    unfolding sqlite_backend Sqlite.execute_script_typed
    execute_sqlite_script_typed sql params =
        sqlite_backend state space_id binding_id client_id
        >>= Sqlite.execute_script_typed upstream sql params

    unfoldable pub execute_sqlite_batch_typed :
        String → List (List ControllerSqliteValue) → Result ControllerSqliteExecuteBatchResult
    unfolding sqlite_backend Sqlite.execute_batch_typed
    execute_sqlite_batch_typed sql batch_params =
        sqlite_backend state space_id binding_id client_id
        >>= Sqlite.execute_batch_typed upstream sql batch_params

    unfoldable pub query_sqlite_json_typed :
        String → List ControllerSqliteValue → Result ControllerSqliteQueryResult
    unfolding sqlite_backend Sqlite.query_json_typed
    query_sqlite_json_typed sql params =
        sqlite_backend state space_id binding_id client_id
        >>= Sqlite.query_json_typed upstream sql params

    unfoldable pub tokenize_sqlite_text :
        ControllerSqliteTokenizerMode → String → Bool → Result ControllerSqliteTokenizeResult
    unfolding sqlite_backend Sqlite.tokenize_text
    tokenize_sqlite_text tokenizer_mode text search_mode =
        sqlite_backend state space_id binding_id client_id
        >>= Sqlite.tokenize_text upstream tokenizer_mode text search_mode

    unfoldable pub list_sqlite_custom_words : Result ControllerSqliteListCustomWordsResult
    unfolding sqlite_backend Sqlite.list_custom_words
    list_sqlite_custom_words =
        sqlite_backend state space_id binding_id client_id >>= Sqlite.list_custom_words upstream

    unfoldable pub upsert_sqlite_custom_word :
        String → ℕ → Result ControllerSqliteDictionaryMutationResult
    unfolding sqlite_backend Sqlite.upsert_custom_word
    upsert_sqlite_custom_word word weight =
        sqlite_backend state space_id binding_id client_id
        >>= Sqlite.upsert_custom_word upstream word weight

    unfoldable pub remove_sqlite_custom_word :
        String → Result ControllerSqliteDictionaryMutationResult
    unfolding sqlite_backend Sqlite.remove_custom_word
    remove_sqlite_custom_word word =
        sqlite_backend state space_id binding_id client_id
        >>= Sqlite.remove_custom_word upstream word

    unfoldable pub ensure_sqlite_fts_index :
        String → ControllerSqliteTokenizerMode → Result ControllerSqliteEnsureFtsIndexResult
    unfolding sqlite_backend Sqlite.ensure_fts_index
    ensure_sqlite_fts_index index_name tokenizer_mode =
        sqlite_backend state space_id binding_id client_id
        >>= Sqlite.ensure_fts_index upstream index_name tokenizer_mode

    unfoldable pub rebuild_sqlite_fts_index :
        String → ControllerSqliteTokenizerMode → Result ControllerSqliteRebuildFtsIndexResult
    unfolding sqlite_backend Sqlite.rebuild_fts_index
    rebuild_sqlite_fts_index index_name tokenizer_mode =
        sqlite_backend state space_id binding_id client_id
        >>= Sqlite.rebuild_fts_index upstream index_name tokenizer_mode

    unfoldable pub upsert_sqlite_fts_document :
        String
        → ControllerSqliteTokenizerMode
        → String
        → String
        → String
        → String
        → Result ControllerSqliteFtsMutationResult
    unfolding sqlite_backend Sqlite.upsert_fts_document
    upsert_sqlite_fts_document index_name tokenizer_mode id file_path title content =
        sqlite_backend state space_id binding_id client_id
        >>= Sqlite.upsert_fts_document upstream index_name tokenizer_mode id file_path title content

    unfoldable pub delete_sqlite_fts_document :
        String → String → Result ControllerSqliteFtsMutationResult
    unfolding sqlite_backend Sqlite.delete_fts_document
    delete_sqlite_fts_document index_name id =
        sqlite_backend state space_id binding_id client_id
        >>= Sqlite.delete_fts_document upstream index_name id

    unfoldable pub search_sqlite_fts :
        String
        → ControllerSqliteTokenizerMode
        → String
        → ℕ
        → ℕ
        → Result ControllerSqliteSearchFtsResult
    unfolding sqlite_backend Sqlite.search_fts
    search_sqlite_fts index_name tokenizer_mode query limit offset =
        sqlite_backend state space_id binding_id client_id
        >>= Sqlite.search_fts upstream index_name tokenizer_mode query limit offset

  module _ (engine : LanceDbUpstream) where
    unfoldable pub create_lancedb_table : String → Result ControllerLanceDbCreateTableResult
    unfolding lancedb_backend LanceDb.create_table
    create_lancedb_table request_json =
        lancedb_backend state space_id binding_id client_id
        >>= LanceDb.create_table engine request_json

    unfoldable pub upsert_lancedb : String → List ℕ → Result ControllerLanceDbUpsertResult
    unfolding lancedb_backend LanceDb.upsert
    upsert_lancedb request_json bytes =
        lancedb_backend state space_id binding_id client_id
        >>= LanceDb.upsert engine request_json bytes

    unfoldable pub search_lancedb : String → Result ControllerLanceDbSearchResult
    unfolding lancedb_backend LanceDb.search
    search_lancedb request_json =
        lancedb_backend state space_id binding_id client_id >>= LanceDb.search engine request_json

    unfoldable pub delete_lancedb : String → Result ControllerLanceDbDeleteResult
    unfolding lancedb_backend LanceDb.delete
    delete_lancedb request_json =
        lancedb_backend state space_id binding_id client_id >>= LanceDb.delete engine request_json

    unfoldable pub drop_lancedb_table : String → Result ControllerLanceDbDropTableResult
    unfolding lancedb_backend LanceDb.drop_table
    drop_lancedb_table table_name =
        lancedb_backend state space_id binding_id client_id >>= LanceDb.drop_table engine table_name
