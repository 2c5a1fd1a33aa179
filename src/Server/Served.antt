-- ===== src/Server/Served.antt =====
-- controller/src/server.rs: whom the handlers of the data plane serve, and what they do to the registry.
use vldb_controller.Base.{ℕ, String, Bool, true, List, ◌≡◌, refl}
use vldb_controller.Base.Except.{Except, success, failure, traverse}
use vldb_controller.Types.{I64}
use vldb_controller.Runtime.Fault.{BackendKind, sqlite, lancedb, Result, ok, err, panic, ◌>>=◌}
use vldb_controller.Runtime.State.{Backend, ControllerState, VldbControllerRuntime}
use vldb_controller.Runtime.Access.{bound_backend, sqlite_backend, lancedb_backend}
use vldb_controller.Runtime.Sessions.{begin_request, end_request}
use vldb_controller.Registry.Invariant.{IsConsistent}
use vldb_controller.Registry.Granted.{IsGranted}
use vldb_controller.Registry.Methods.{begin-IsConsistent}
use vldb_controller.Server.Status.{Status, Reply, response, reply, optional_client_session_id}
use vldb_controller.Server.Handlers.{Clock, with_request}
use vldb_controller.DataPlane.Sqlite
use vldb_controller.DataPlane.Sqlite.{SqliteUpstream}
use vldb_controller.DataPlane.LanceDb
use vldb_controller.DataPlane.LanceDb.{LanceDbUpstream}
use vldb_controller.Server.Tables.{
  JsonWriter, delete_json, ProtoLanceDbColumnDef, create_table_json, upsert_json, search_json,
  create_lance_db_table_handler, upsert_lance_db_handler, search_lance_db_handler,
  delete_lance_db_handler, drop_lance_db_table_handler,
}
use vldb_controller.DataPlane.Methods.{
  create_lancedb_table, upsert_lancedb, search_lancedb, delete_lancedb, drop_lancedb_table,
  execute_sqlite_script_typed, execute_sqlite_batch_typed, query_sqlite_json_typed,
  tokenize_sqlite_text, list_sqlite_custom_words, upsert_sqlite_custom_word,
  remove_sqlite_custom_word, ensure_sqlite_fts_index, rebuild_sqlite_fts_index,
  upsert_sqlite_fts_document, delete_sqlite_fts_document, search_sqlite_fts,
}
use vldb_controller.DataPlane.Guarded.{guarded}
use vldb_controller.Server.Data.{
  ProtoSqliteValue, proto_sqlite_value_to_typed, map_sqlite_tokenizer_mode, run_sqlite_blocking,
  decoding, execute_sqlite_script_handler, execute_sqlite_batch_handler, query_sqlite_json_handler,
  tokenize_sqlite_text_handler, list_sqlite_custom_words_handler, upsert_sqlite_custom_word_handler,
  remove_sqlite_custom_word_handler, ensure_sqlite_fts_index_handler,
  rebuild_sqlite_fts_index_handler, upsert_sqlite_fts_document_handler,
  delete_sqlite_fts_document_handler, search_sqlite_fts_handler,
}

module _ (runtime : VldbControllerRuntime) (clock : Clock)
    (client_session_id space_id binding_id : String) (state : ControllerState) where
  -- The registry when the request has begun: its caller's lease is renewed and the expired clients are gone.
  abbrev pub begun : ControllerState
  begun =
      begin_request runtime clock.now clock.begun_unix_ms
        (optional_client_session_id client_session_id) state

  -- The registry only sees the request begin and end; a response is the answer of the backend's method for
  -- the decoded message, on a backend that the caller is granted at that moment.
  abbrev pub IsServed :
      {D A : Type 0}
      → BackendKind
      → Except Status D
      → (D → Backend → Result A)
      → Reply A × ControllerState
      → Type 0
  IsServed {D = D} {A = A} kind decoded op r =
      (r.1 ≡ end_request begun)
      × ((a : A)
          → r.0 ≡ response a
          → (d : D) × (backend : Backend) × (decoded ≡ success d)
            × IsGranted kind begun space_id binding_id
                (optional_client_session_id client_session_id) backend
            × (op d backend ≡ ok a))

  module _ (h : IsConsistent state) where
    blocking-ok :
        {A : Type 0} (r : Result A) (a : A) → run_sqlite_blocking r ≡ response a → r ≡ ok a
    unfolding run_sqlite_blocking
    blocking-ok (ok b) a e = cc
    blocking-ok (err x) a e = absurd cc
    blocking-ok (panic x) a e = absurd cc

    reply-ok : {A : Type 0} (r : Result A) (a : A) → reply (λ b. b) r ≡ response a → r ≡ ok a
    unfolding reply
    reply-ok (ok b) a e = cc
    reply-ok (err x) a e = absurd cc
    reply-ok (panic x) a e = absurd cc

    served :
        {D A : Type 0} (kind : BackendKind) (answer : Result A → Reply A)
        → ((r : Result A) (a : A) → answer r ≡ response a → r ≡ ok a)
        → (decoded : Except Status D) (op : D → Backend → Result A)
        → IsServed kind decoded op (
            with_request runtime clock
              (optional_client_session_id client_session_id)
              (decoding decoded (λ d s. answer (
                bound_backend kind s space_id binding_id
                  (optional_client_session_id client_session_id)
                >>= op d)))
              state)
    unfolding with_request begin_request
    served kind answer back (failure status) op = (refl, λ a e. absurd cc)
    served kind answer back (success d) op = (
      refl,
      λ a e.
          let g =
            (guarded begun
                (begin-IsConsistent runtime clock.now clock.begun_unix_ms
                  (optional_client_session_id client_session_id) true state h)
                space_id binding_id (optional_client_session_id client_session_id) kind (op d) a).0
              (back _ a e) in
          (d, g.0, refl, g.1, g.2),
    )

    -- A call of the data plane, to SQLite or to LanceDB, leaves the registry as a request that only begins and ends. It gets a
    -- response only if its message is decoded and its caller, by the trimmed session identifier, is granted
    -- the binding, and the response is then the answer of the backend's method. The registry must be
    -- consistent.
    pub data_handlers-IsServed :
        (upstream : SqliteUpstream) (engine : LanceDbUpstream) (json : JsonWriter)
        (sql text word index_name id file_path title content query : String)
        (params : List ProtoSqliteValue) (batch_params : List (List ProtoSqliteValue))
        (tokenizer_mode : I64) (search_mode : Bool) (weight limit offset : ℕ)
        (table_name filter vector_column condition : String) (columns : List ProtoLanceDbColumnDef)
        (overwrite_if_exists : Bool) (input_format output_format : I64) (key_columns : List String)
        (bytes vector : List ℕ)
        → IsServed sqlite
            (traverse proto_sqlite_value_to_typed params)
            (λ params. Sqlite.execute_script_typed upstream sql params)
            (execute_sqlite_script_handler runtime clock upstream client_session_id space_id
              binding_id sql params state)
          × IsServed sqlite
              (traverse (traverse proto_sqlite_value_to_typed) batch_params)
              (λ batch_params. Sqlite.execute_batch_typed upstream sql batch_params)
              (execute_sqlite_batch_handler runtime clock upstream client_session_id space_id
                binding_id sql batch_params state)
          × IsServed sqlite
              (traverse proto_sqlite_value_to_typed params)
              (λ params. Sqlite.query_json_typed upstream sql params)
              (query_sqlite_json_handler runtime clock upstream client_session_id space_id
                binding_id sql params state)
          × IsServed sqlite
              (map_sqlite_tokenizer_mode tokenizer_mode)
              (λ tokenizer_mode. Sqlite.tokenize_text upstream tokenizer_mode text search_mode)
              (tokenize_sqlite_text_handler runtime clock upstream client_session_id space_id
                binding_id tokenizer_mode text search_mode state)
          × IsServed sqlite
              (success tt)
              (λ u. Sqlite.list_custom_words upstream)
              (list_sqlite_custom_words_handler runtime clock upstream client_session_id space_id
                binding_id state)
          × IsServed sqlite
              (success tt)
              (λ u. Sqlite.upsert_custom_word upstream word weight)
              (upsert_sqlite_custom_word_handler runtime clock upstream client_session_id space_id
                binding_id word weight state)
          × IsServed sqlite
              (success tt)
              (λ u. Sqlite.remove_custom_word upstream word)
              (remove_sqlite_custom_word_handler runtime clock upstream client_session_id space_id
                binding_id word state)
          × IsServed sqlite
              (map_sqlite_tokenizer_mode tokenizer_mode)
              (λ tokenizer_mode. Sqlite.ensure_fts_index upstream index_name tokenizer_mode)
              (ensure_sqlite_fts_index_handler runtime clock upstream client_session_id space_id
                binding_id index_name tokenizer_mode state)
          × IsServed sqlite
              (map_sqlite_tokenizer_mode tokenizer_mode)
              (λ tokenizer_mode. Sqlite.rebuild_fts_index upstream index_name tokenizer_mode)
              (rebuild_sqlite_fts_index_handler runtime clock upstream client_session_id space_id
                binding_id index_name tokenizer_mode state)
          × IsServed sqlite
              (map_sqlite_tokenizer_mode tokenizer_mode)
              (λ tokenizer_mode.
                Sqlite.upsert_fts_document upstream index_name tokenizer_mode id file_path title
                  content)
              (upsert_sqlite_fts_document_handler runtime clock upstream client_session_id space_id
                binding_id index_name tokenizer_mode id file_path title content state)
          × IsServed sqlite
              (success tt)
              (λ u. Sqlite.delete_fts_document upstream index_name id)
              (delete_sqlite_fts_document_handler runtime clock upstream client_session_id space_id
                binding_id index_name id state)
          × IsServed sqlite
              (map_sqlite_tokenizer_mode tokenizer_mode)
              (λ tokenizer_mode.
                Sqlite.search_fts upstream index_name tokenizer_mode query limit offset)
              (search_sqlite_fts_handler runtime clock upstream client_session_id space_id
                binding_id index_name tokenizer_mode query limit offset state)
          × IsServed lancedb
              (create_table_json json table_name columns overwrite_if_exists)
              (λ request_json. LanceDb.create_table engine request_json)
              (create_lance_db_table_handler runtime clock engine json client_session_id space_id
                binding_id table_name columns overwrite_if_exists state)
          × IsServed lancedb
              (upsert_json json table_name input_format key_columns)
              (λ request_json. LanceDb.upsert engine request_json bytes)
              (upsert_lance_db_handler runtime clock engine json client_session_id space_id
                binding_id table_name input_format key_columns bytes state)
          × IsServed lancedb
              (search_json json table_name vector limit filter vector_column output_format)
              (λ request_json. LanceDb.search engine request_json)
              (search_lance_db_handler runtime clock engine json client_session_id space_id
                binding_id table_name vector limit filter vector_column output_format state)
          × IsServed lancedb
              (delete_json json table_name condition)
              (λ request_json. LanceDb.delete engine request_json)
              (delete_lance_db_handler runtime clock engine json client_session_id space_id
                binding_id table_name condition state)
          × IsServed lancedb
              (success table_name)
              (λ table_name. LanceDb.drop_table engine table_name)
              (drop_lance_db_table_handler runtime clock engine json client_session_id space_id
                binding_id table_name state)
    unfolding sqlite_backend lancedb_backend create_lance_db_table_handler upsert_lance_db_handler
        search_lance_db_handler delete_lance_db_handler drop_lance_db_table_handler
        create_lancedb_table upsert_lancedb search_lancedb delete_lancedb drop_lancedb_table
        execute_sqlite_script_handler execute_sqlite_batch_handler query_sqlite_json_handler
        tokenize_sqlite_text_handler list_sqlite_custom_words_handler
        upsert_sqlite_custom_word_handler remove_sqlite_custom_word_handler
        ensure_sqlite_fts_index_handler rebuild_sqlite_fts_index_handler
        upsert_sqlite_fts_document_handler delete_sqlite_fts_document_handler
        search_sqlite_fts_handler execute_sqlite_script_typed execute_sqlite_batch_typed
        query_sqlite_json_typed tokenize_sqlite_text list_sqlite_custom_words
        upsert_sqlite_custom_word remove_sqlite_custom_word ensure_sqlite_fts_index
        rebuild_sqlite_fts_index upsert_sqlite_fts_document delete_sqlite_fts_document
        search_sqlite_fts
    data_handlers-IsServed upstream engine json sql text word index_name id file_path title content
          query params batch_params tokenizer_mode search_mode weight limit offset table_name filter
          vector_column condition columns overwrite_if_exists input_format output_format key_columns
          bytes vector =
        (
          served sqlite run_sqlite_blocking blocking-ok
              (traverse proto_sqlite_value_to_typed params)
              (λ params. Sqlite.execute_script_typed upstream sql params),
          served sqlite run_sqlite_blocking blocking-ok
              (traverse (traverse proto_sqlite_value_to_typed) batch_params)
              (λ batch_params. Sqlite.execute_batch_typed upstream sql batch_params),
          served sqlite run_sqlite_blocking blocking-ok
              (traverse proto_sqlite_value_to_typed params)
              (λ params. Sqlite.query_json_typed upstream sql params),
          served sqlite run_sqlite_blocking blocking-ok (map_sqlite_tokenizer_mode tokenizer_mode)
              (λ tokenizer_mode. Sqlite.tokenize_text upstream tokenizer_mode text search_mode),
          served sqlite run_sqlite_blocking blocking-ok (success tt)
              (λ u. Sqlite.list_custom_words upstream),
          served sqlite run_sqlite_blocking blocking-ok (success tt)
              (λ u. Sqlite.upsert_custom_word upstream word weight),
          served sqlite run_sqlite_blocking blocking-ok (success tt)
              (λ u. Sqlite.remove_custom_word upstream word),
          served sqlite run_sqlite_blocking blocking-ok (map_sqlite_tokenizer_mode tokenizer_mode)
              (λ tokenizer_mode. Sqlite.ensure_fts_index upstream index_name tokenizer_mode),
          served sqlite run_sqlite_blocking blocking-ok (map_sqlite_tokenizer_mode tokenizer_mode)
              (λ tokenizer_mode. Sqlite.rebuild_fts_index upstream index_name tokenizer_mode),
          served sqlite run_sqlite_blocking blocking-ok (map_sqlite_tokenizer_mode tokenizer_mode)
              (λ tokenizer_mode.
                Sqlite.upsert_fts_document upstream index_name tokenizer_mode id file_path title
                  content),
          served sqlite run_sqlite_blocking blocking-ok (success tt)
              (λ u. Sqlite.delete_fts_document upstream index_name id),
          served sqlite run_sqlite_blocking blocking-ok (map_sqlite_tokenizer_mode tokenizer_mode)
              (λ tokenizer_mode.
                Sqlite.search_fts upstream index_name tokenizer_mode query limit offset),
          served lancedb (reply (λ a. a)) reply-ok
              (create_table_json json table_name columns overwrite_if_exists)
              (λ request_json. LanceDb.create_table engine request_json),
          served lancedb (reply (λ a. a)) reply-ok
              (upsert_json json table_name input_format key_columns)
              (λ request_json. LanceDb.upsert engine request_json bytes),
          served lancedb (reply (λ a. a)) reply-ok
              (search_json json table_name vector limit filter vector_column output_format)
              (λ request_json. LanceDb.search engine request_json),
          served lancedb (reply (λ a. a)) reply-ok (delete_json json table_name condition)
              (λ request_json. LanceDb.delete engine request_json),
          served lancedb (reply (λ a. a)) reply-ok (success table_name)
              (λ table_name. LanceDb.drop_table engine table_name),
        )
