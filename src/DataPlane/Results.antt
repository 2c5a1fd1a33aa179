-- ===== src/DataPlane/Results.antt =====
-- client/src/types.rs: values of SQLite parameters and the results of the data plane. A number of type f64 is
-- its 64 bits.
use vldb_controller.Base.{ℕ, String, Bool, List}
use vldb_controller.Types.{I64}

pub data ControllerSqliteValue : Type 0 where
  int64_value : I64 → ControllerSqliteValue
  float64_value : ℕ → ControllerSqliteValue
  string_value : String → ControllerSqliteValue
  bytes_value : List ℕ → ControllerSqliteValue
  bool_value : Bool → ControllerSqliteValue
  null_value : ControllerSqliteValue

pub record ControllerSqliteExecuteResult : Type 0 where
  pub success : Bool
  pub message : String
  pub rows_changed : I64
  pub last_insert_rowid : I64

pub record ControllerSqliteExecuteBatchResult : Type 0 where
  pub success : Bool
  pub message : String
  pub rows_changed : I64
  pub last_insert_rowid : I64
  pub statements_executed : I64

pub record ControllerSqliteQueryResult : Type 0 where
  pub json_data : String
  pub row_count : ℕ

pub record ControllerSqliteTokenizeResult : Type 0 where
  pub tokenizer_mode : String
  pub normalized_text : String
  pub tokens : List String
  pub fts_query : String

pub record ControllerSqliteCustomWordEntry : Type 0 where
  pub word : String
  pub weight : ℕ

pub record ControllerSqliteDictionaryMutationResult : Type 0 where
  pub success : Bool
  pub message : String
  pub affected_rows : ℕ

pub record ControllerSqliteListCustomWordsResult : Type 0 where
  pub success : Bool
  pub message : String
  pub words : List ControllerSqliteCustomWordEntry

pub record ControllerSqliteEnsureFtsIndexResult : Type 0 where
  pub success : Bool
  pub message : String
  pub index_name : String
  pub tokenizer_mode : String

pub record ControllerSqliteRebuildFtsIndexResult : Type 0 where
  pub success : Bool
  pub message : String
  pub index_name : String
  pub tokenizer_mode : String
  pub reindexed_rows : ℕ

pub record ControllerSqliteFtsMutationResult : Type 0 where
  pub success : Bool
  pub message : String
  pub affected_rows : ℕ
  pub index_name : String

pub record ControllerSqliteSearchFtsHit : Type 0 where
  pub id : String
  pub file_path : String
  pub title : String
  pub title_highlight : String
  pub content_snippet : String
  pub score : ℕ
  pub rank : ℕ
  pub raw_score : ℕ

pub record ControllerSqliteSearchFtsResult : Type 0 where
  pub success : Bool
  pub message : String
  pub index_name : String
  pub tokenizer_mode : String
  pub normalized_query : String
  pub fts_query : String
  pub source : String
  pub query_mode : String
  pub total : ℕ
  pub hits : List ControllerSqliteSearchFtsHit

pub record ControllerLanceDbCreateTableResult : Type 0 where
  pub message : String

pub record ControllerLanceDbUpsertResult : Type 0 where
  pub message : String
  pub version : ℕ
  pub input_rows : ℕ
  pub inserted_rows : ℕ
  pub updated_rows : ℕ
  pub deleted_rows : ℕ

pub record ControllerLanceDbSearchResult : Type 0 where
  pub message : String
  pub format : String
  pub rows : ℕ
  pub data_bytes : List ℕ

pub record ControllerLanceDbDeleteResult : Type 0 where
  pub message : String
  pub version : ℕ
  pub deleted_rows : ℕ

pub record ControllerLanceDbDropTableResult : Type 0 where
  pub message : String
