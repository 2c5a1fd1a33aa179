-- ===== src/DataPlane/Guarded.antt =====
-- controller/src/core/runtime.rs: whom the data plane serves.
use vldb_controller.Base.{ℕ, String, Option, Bool, List, ◌≡◌, refl, ◌↔◌}
use vldb_controller.Wire.Enums.{ControllerSqliteTokenizerMode}
use vldb_controller.Runtime.Fault.{BackendKind, sqlite, lancedb, Result, ok, err, panic, ◌>>=◌}
use vldb_controller.Runtime.State.{Backend, ControllerState}
use vldb_controller.Runtime.Access.{bound_backend, sqlite_backend, lancedb_backend}
use vldb_controller.Registry.Invariant.{IsConsistent}
use vldb_controller.Registry.Granted.{IsGranted, bound_backend-IsGranted}
use vldb_controller.DataPlane.Results.{ControllerSqliteValue}
use vldb_controller.DataPlane.Sqlite
use vldb_controller.DataPlane.Sqlite.{SqliteUpstream}
use vldb_controller.DataPlane.LanceDb
use vldb_controller.DataPlane.LanceDb.{LanceDbUpstream}
use vldb_controller.DataPlane.Methods.{
  execute_sqlite_script_typed, execute_sqlite_batch_typed, query_sqlite_json_typed,
  tokenize_sqlite_text, list_sqlite_custom_words, upsert_sqlite_custom_word,
  remove_sqlite_custom_word, ensure_sqlite_fts_index, rebuild_sqlite_fts_index,
  upsert_sqlite_fts_document, delete_sqlite_fts_document, search_sqlite_fts, create_lancedb_table,
  upsert_lancedb, search_lancedb, delete_lancedb, drop_lancedb_table,
}

module _ (state : ControllerState) (h : IsConsistent state) (space_id binding_id : String)
    (client_id : Option String) where
  -- The method answers exactly what the backend's method answers for a backend that the caller is granted.
  abbrev pub IsGuarded : {A : Type 0} → BackendKind → (Backend → Result A) → Result A → Type 0
  IsGuarded {A = A} kind op result =
      (a : A)
      → (result ≡ ok a) ↔ (
          (backend : Backend) × IsGranted kind state space_id binding_id client_id backend
          × (op backend ≡ ok a))

  pub guarded :
      {A : Type 0} (kind : BackendKind) (op : Backend → Result A)
      → IsGuarded kind op (bound_backend kind state space_id binding_id client_id >>= op)
  guarded kind op a = (
    go (bound_backend kind state space_id binding_id client_id) refl,
    λ (backend, g, e).
        served backend
          ((bound_backend-IsGranted kind state space_id binding_id client_id h backend).1 g) e,
  )
    where
      go :
          (r : Result Backend)
          → bound_backend kind state space_id binding_id client_id ≡ r
          → (r >>= op) ≡ ok a
          → (backend : Backend) × IsGranted kind state space_id binding_id client_id backend
            × (op backend ≡ ok a)
      go (ok backend) e f = (
        backend,
        (bound_backend-IsGranted kind state space_id binding_id client_id h backend).0 e,
        f,
      )
      go (err x) e f = absurd cc
      go (panic x) e f = absurd cc

      served :
          (backend : Backend)
          → bound_backend kind state space_id binding_id client_id ≡ ok backend
          → op backend ≡ ok a
          → (bound_backend kind state space_id binding_id client_id >>= op) ≡ ok a
      served backend e f = rw e f

  -- In a consistent registry every call of the data plane succeeds exactly when the caller is granted the
  -- binding, being attached to the space and the owner of the binding, and the backend's own method succeeds
  -- on the backend of that binding; then the caller gets that method's answer.
  pub data_plane-IsGuarded :
      (upstream : SqliteUpstream) (engine : LanceDbUpstream)
      (sql text word index_name id file_path title content query request_json table_name : String)
      (params : List ControllerSqliteValue) (batch_params : List (List ControllerSqliteValue))
      (tokenizer_mode : ControllerSqliteTokenizerMode) (search_mode : Bool)
      (weight limit offset : ℕ) (bytes : List ℕ)
      → IsGuarded sqlite
          (Sqlite.execute_script_typed upstream sql params)
          (execute_sqlite_script_typed state space_id binding_id client_id upstream sql params)
        × IsGuarded sqlite (Sqlite.execute_batch_typed upstream sql batch_params) (
            execute_sqlite_batch_typed state space_id binding_id client_id upstream sql
              batch_params)
        × IsGuarded sqlite
            (Sqlite.query_json_typed upstream sql params)
            (query_sqlite_json_typed state space_id binding_id client_id upstream sql params)
        × IsGuarded sqlite (Sqlite.tokenize_text upstream tokenizer_mode text search_mode) (
            tokenize_sqlite_text state space_id binding_id client_id upstream tokenizer_mode text
              search_mode)
        × IsGuarded sqlite
            (Sqlite.list_custom_words upstream)
            (list_sqlite_custom_words state space_id binding_id client_id upstream)
        × IsGuarded sqlite
            (Sqlite.upsert_custom_word upstream word weight)
            (upsert_sqlite_custom_word state space_id binding_id client_id upstream word weight)
        × IsGuarded sqlite
            (Sqlite.remove_custom_word upstream word)
            (remove_sqlite_custom_word state space_id binding_id client_id upstream word)
        × IsGuarded sqlite (Sqlite.ensure_fts_index upstream index_name tokenizer_mode) (
            ensure_sqlite_fts_index state space_id binding_id client_id upstream index_name
              tokenizer_mode)
        × IsGuarded sqlite (Sqlite.rebuild_fts_index upstream index_name tokenizer_mode) (
            rebuild_sqlite_fts_index state space_id binding_id client_id upstream index_name
              tokenizer_mode)
        × IsGuarded sqlite
            (Sqlite.upsert_fts_document upstream index_name tokenizer_mode id file_path title
              content)
            (upsert_sqlite_fts_document state space_id binding_id client_id upstream index_name
              tokenizer_mode id file_path title content)
        × IsGuarded sqlite
            (Sqlite.delete_fts_document upstream index_name id)
            (delete_sqlite_fts_document state space_id binding_id client_id upstream index_name id)
        × IsGuarded sqlite
            (Sqlite.search_fts upstream index_name tokenizer_mode query limit offset)
            (search_sqlite_fts state space_id binding_id client_id upstream index_name
              tokenizer_mode query limit offset)
        × IsGuarded lancedb
            (LanceDb.create_table engine request_json)
            (create_lancedb_table state space_id binding_id client_id engine request_json)
        × IsGuarded lancedb
            (LanceDb.upsert engine request_json bytes)
            (upsert_lancedb state space_id binding_id client_id engine request_json bytes)
        × IsGuarded lancedb
            (LanceDb.search engine request_json)
            (search_lancedb state space_id binding_id client_id engine request_json)
        × IsGuarded lancedb
            (LanceDb.delete engine request_json)
            (delete_lancedb state space_id binding_id client_id engine request_json)
        × IsGuarded lancedb
            (LanceDb.drop_table engine table_name)
            (drop_lancedb_table state space_id binding_id client_id engine table_name)
  unfolding sqlite_backend lancedb_backend execute_sqlite_script_typed execute_sqlite_batch_typed
      query_sqlite_json_typed tokenize_sqlite_text list_sqlite_custom_words
      upsert_sqlite_custom_word remove_sqlite_custom_word ensure_sqlite_fts_index
      rebuild_sqlite_fts_index upsert_sqlite_fts_document delete_sqlite_fts_document
      search_sqlite_fts create_lancedb_table upsert_lancedb search_lancedb delete_lancedb
      drop_lancedb_table
  data_plane-IsGuarded upstream engine sql text word index_name id file_path title content query
        request_json table_name params batch_params tokenizer_mode search_mode weight limit offset
        bytes =
      (
        guarded sqlite (Sqlite.execute_script_typed upstream sql params),
        guarded sqlite (Sqlite.execute_batch_typed upstream sql batch_params),
        guarded sqlite (Sqlite.query_json_typed upstream sql params),
        guarded sqlite (Sqlite.tokenize_text upstream tokenizer_mode text search_mode),
        guarded sqlite (Sqlite.list_custom_words upstream),
        guarded sqlite (Sqlite.upsert_custom_word upstream word weight),
        guarded sqlite (Sqlite.remove_custom_word upstream word),
        guarded sqlite (Sqlite.ensure_fts_index upstream index_name tokenizer_mode),
        guarded sqlite (Sqlite.rebuild_fts_index upstream index_name tokenizer_mode),
        guarded sqlite (
            Sqlite.upsert_fts_document upstream index_name tokenizer_mode id file_path title
              content),
        guarded sqlite (Sqlite.delete_fts_document upstream index_name id),
        guarded sqlite (Sqlite.search_fts upstream index_name tokenizer_mode query limit offset),
        guarded lancedb (LanceDb.create_table engine request_json),
        guarded lancedb (LanceDb.upsert engine request_json bytes),
        guarded lancedb (LanceDb.search engine request_json),
        guarded lancedb (LanceDb.delete engine request_json),
        guarded lancedb (LanceDb.drop_table engine table_name),
      )
