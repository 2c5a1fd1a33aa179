-- ===== src/DataPlane/Sqlite.antt =====
-- controller/src/core/sqlite.rs: the methods of a SQLite backend. What vldb-sqlite does on a connection is in
-- `SqliteUpstream`; of its results the source reads the fields that the results here have, and copies them.
use vldb_controller.Base.{ℕ, String, Bool, true, false, List, map}
use vldb_controller.Types.{I64, nonnegative}
use vldb_controller.Wire.Enums.{ControllerSqliteTokenizerMode, no_tokenizer, jieba}
use vldb_controller.Runtime.Fault.{Result, ◌>>=◌}
use vldb_controller.Runtime.State.{Backend}
use vldb_controller.DataPlane.Results.{
  ControllerSqliteValue, int64_value, float64_value, string_value, bytes_value, bool_value,
  null_value, ControllerSqliteExecuteResult, ControllerSqliteExecuteBatchResult,
  ControllerSqliteQueryResult, ControllerSqliteTokenizeResult,
  ControllerSqliteDictionaryMutationResult, ControllerSqliteListCustomWordsResult,
  ControllerSqliteEnsureFtsIndexResult, ControllerSqliteRebuildFtsIndexResult,
  ControllerSqliteFtsMutationResult, ControllerSqliteSearchFtsResult,
}

pub data RusqliteValue : Type 0 where
  integer : I64 → RusqliteValue
  real : ℕ → RusqliteValue
  text_value : String → RusqliteValue
  blob : List ℕ → RusqliteValue
  null : RusqliteValue

pub data UpstreamTokenizerMode : Type 0 where
  upstream_none upstream_jieba : UpstreamTokenizerMode

-- `connect` opens the database of a backend and a connection to it.
pub record SqliteUpstream : Type 0 where
  pub connect : Backend → Result ℕ
  pub sqlite_execute_script : ℕ → String → List RusqliteValue → Result ControllerSqliteExecuteResult
  pub sqlite_execute_batch :
      ℕ → String → List (List RusqliteValue) → Result ControllerSqliteExecuteBatchResult
  pub sqlite_query_json : ℕ → String → List RusqliteValue → Result ControllerSqliteQueryResult
  pub sqlite_tokenize_text :
      ℕ → UpstreamTokenizerMode → String → Bool → Result ControllerSqliteTokenizeResult
  pub sqlite_list_custom_words : ℕ → Result ControllerSqliteListCustomWordsResult
  pub sqlite_upsert_custom_word : ℕ → String → ℕ → Result ControllerSqliteDictionaryMutationResult
  pub sqlite_remove_custom_word : ℕ → String → Result ControllerSqliteDictionaryMutationResult
  pub sqlite_ensure_fts_index :
      ℕ → String → UpstreamTokenizerMode → Result ControllerSqliteEnsureFtsIndexResult
  pub sqlite_rebuild_fts_index :
      ℕ → String → UpstreamTokenizerMode → Result ControllerSqliteRebuildFtsIndexResult
  pub sqlite_upsert_fts_document :
      ℕ
      → String
      → UpstreamTokenizerMode
      → String
      → String
      → String
      → String
      → Result ControllerSqliteFtsMutationResult
  pub sqlite_delete_fts_document : ℕ → String → String → Result ControllerSqliteFtsMutationResult
  pub sqlite_search_fts :
      ℕ → String → UpstreamTokenizerMode → String → ℕ → ℕ → Result ControllerSqliteSearchFtsResult

unfoldable pub map_tokenizer_mode : ControllerSqliteTokenizerMode → UpstreamTokenizerMode
map_tokenizer_mode no_tokenizer = upstream_none
map_tokenizer_mode jieba = upstream_jieba

unfoldable pub controller_sqlite_value_to_rusqlite : ControllerSqliteValue → RusqliteValue
controller_sqlite_value_to_rusqlite (int64_value value) = integer value
controller_sqlite_value_to_rusqlite (float64_value value) = real value
controller_sqlite_value_to_rusqlite (string_value value) = text_value value
controller_sqlite_value_to_rusqlite (bytes_value value) = blob value
controller_sqlite_value_to_rusqlite (bool_value true) = integer (nonnegative 1)
controller_sqlite_value_to_rusqlite (bool_value false) = integer (nonnegative 0)
controller_sqlite_value_to_rusqlite null_value = null

module _ (upstream : SqliteUpstream) where
  open upstream use {
    connect, sqlite_execute_script, sqlite_execute_batch, sqlite_query_json, sqlite_tokenize_text,
    sqlite_list_custom_words, sqlite_upsert_custom_word, sqlite_remove_custom_word,
    sqlite_ensure_fts_index, sqlite_rebuild_fts_index, sqlite_upsert_fts_document,
    sqlite_delete_fts_document, sqlite_search_fts,
  }

  unfoldable pub execute_script_typed :
      String → List ControllerSqliteValue → Backend → Result ControllerSqliteExecuteResult
  unfolding controller_sqlite_value_to_rusqlite
  execute_script_typed sql params backend = connect backend >>= λ connection.
      sqlite_execute_script connection sql (map controller_sqlite_value_to_rusqlite params)

  unfoldable pub execute_batch_typed :
      String
      → List (List ControllerSqliteValue)
      → Backend
      → Result ControllerSqliteExecuteBatchResult
  unfolding controller_sqlite_value_to_rusqlite
  execute_batch_typed sql batch_params backend = connect backend >>= λ connection.
      sqlite_execute_batch connection sql
        (map (map controller_sqlite_value_to_rusqlite) batch_params)

  unfoldable pub query_json_typed :
      String → List ControllerSqliteValue → Backend → Result ControllerSqliteQueryResult
  unfolding controller_sqlite_value_to_rusqlite
  query_json_typed sql params backend = connect backend >>= λ connection.
      sqlite_query_json connection sql (map controller_sqlite_value_to_rusqlite params)

  unfoldable pub tokenize_text :
      ControllerSqliteTokenizerMode
      → String
      → Bool
      → Backend
      → Result ControllerSqliteTokenizeResult
  unfolding map_tokenizer_mode
  tokenize_text tokenizer_mode text search_mode backend = connect backend >>= λ connection.
      sqlite_tokenize_text connection (map_tokenizer_mode tokenizer_mode) text search_mode

  unfoldable pub list_custom_words : Backend → Result ControllerSqliteListCustomWordsResult
  list_custom_words backend = connect backend >>= λ connection. sqlite_list_custom_words connection

  unfoldable pub upsert_custom_word :
      String → ℕ → Backend → Result ControllerSqliteDictionaryMutationResult
  upsert_custom_word word weight backend =
      connect backend >>= λ connection. sqlite_upsert_custom_word connection word weight

  unfoldable pub remove_custom_word :
      String → Backend → Result ControllerSqliteDictionaryMutationResult
  remove_custom_word word backend =
      connect backend >>= λ connection. sqlite_remove_custom_word connection word

  unfoldable pub ensure_fts_index :
      String → ControllerSqliteTokenizerMode → Backend → Result ControllerSqliteEnsureFtsIndexResult
  unfolding map_tokenizer_mode
  ensure_fts_index index_name tokenizer_mode backend = connect backend >>= λ connection.
      sqlite_ensure_fts_index connection index_name (map_tokenizer_mode tokenizer_mode)

  unfoldable pub rebuild_fts_index :
      String
      → ControllerSqliteTokenizerMode
      → Backend
      → Result ControllerSqliteRebuildFtsIndexResult
  unfolding map_tokenizer_mode
  rebuild_fts_index index_name tokenizer_mode backend = connect backend >>= λ connection.
      sqlite_rebuild_fts_index connection index_name (map_tokenizer_mode tokenizer_mode)

  unfoldable pub upsert_fts_document :
      String
      → ControllerSqliteTokenizerMode
      → String
      → String
      → String
      → String
      → Backend
      → Result ControllerSqliteFtsMutationResult
  unfolding map_tokenizer_mode
  upsert_fts_document index_name tokenizer_mode id file_path title content backend =
      connect backend >>= λ connection.
      sqlite_upsert_fts_document connection index_name (map_tokenizer_mode tokenizer_mode) id
        file_path title content

  unfoldable pub delete_fts_document :
      String → String → Backend → Result ControllerSqliteFtsMutationResult
  delete_fts_document index_name id backend =
      connect backend >>= λ connection. sqlite_delete_fts_document connection index_name id

  unfoldable pub search_fts :
      String
      → ControllerSqliteTokenizerMode
      → String
      → ℕ
      → ℕ
      → Backend
      → Result ControllerSqliteSearchFtsResult
  unfolding map_tokenizer_mode
  search_fts index_name tokenizer_mode query limit offset backend =
      connect backend >>= λ connection.
      sqlite_search_fts connection index_name (map_tokenizer_mode tokenizer_mode) query limit offset
