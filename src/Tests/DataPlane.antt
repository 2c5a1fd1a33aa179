-- ===== src/Tests/DataPlane.antt =====
-- The data plane at concrete inputs.
use vldb_controller.Base.{some, none, true, [], ◌∷◌}
use vldb_controller.Base.Except.{success, traverse}
use vldb_controller.Types.{nonnegative, default_server_config}
use vldb_controller.Wire.Enums.{
  jieba, float32, unspecified_input, json_rows_output, column_type_to_proto_value,
  input_format_to_proto_value, output_format_to_proto_value,
}
use vldb_controller.Runtime.Fault.{ok, sqlite, lancedb}
use vldb_controller.Registry.Steps.{new-IsConsistent}
use vldb_controller.Server.Data.{
  proto_sqlite_value_to_typed, map_sqlite_tokenizer_mode, execute_sqlite_script_handler,
  execute_sqlite_batch_handler, query_sqlite_json_handler, tokenize_sqlite_text_handler,
  list_sqlite_custom_words_handler, upsert_sqlite_custom_word_handler,
  remove_sqlite_custom_word_handler, ensure_sqlite_fts_index_handler,
  rebuild_sqlite_fts_index_handler, upsert_sqlite_fts_document_handler,
  delete_sqlite_fts_document_handler, search_sqlite_fts_handler,
}
use vldb_controller.Server.Tables.{
  JsonWriter, create_table_json, upsert_json, search_json, delete_json,
  create_lance_db_table_handler, upsert_lance_db_handler, search_lance_db_handler,
  delete_lance_db_handler, drop_lance_db_table_handler,
}
use vldb_controller.Server.Served.{IsServed, data_handlers-IsServed}
use vldb_controller.Server.Handlers.{Clock}
use vldb_controller.DataPlane.Results.{int64_value, null_value}
use vldb_controller.DataPlane.Sqlite
use vldb_controller.DataPlane.Sqlite.{SqliteUpstream}
use vldb_controller.DataPlane.LanceDb
use vldb_controller.DataPlane.LanceDb.{LanceDbUpstream}
use vldb_controller.DataPlane.Methods.{
  execute_sqlite_script_typed, execute_sqlite_batch_typed, query_sqlite_json_typed,
  tokenize_sqlite_text, list_sqlite_custom_words, upsert_sqlite_custom_word,
  remove_sqlite_custom_word, ensure_sqlite_fts_index, rebuild_sqlite_fts_index,
  upsert_sqlite_fts_document, delete_sqlite_fts_document, search_sqlite_fts, create_lancedb_table,
  upsert_lancedb, search_lancedb, delete_lancedb, drop_lancedb_table,
}
use vldb_controller.DataPlane.Guarded.{IsGuarded, data_plane-IsGuarded}
use vldb_controller.DataPlane.Names.{
  parse_column_type, parse_input_format, parse_output_format, parse_lancedb_column_type,
  parse_lancedb_input_format, parse_lancedb_output_format, proto_lancedb_column_type_name,
  proto_lancedb_input_format_name, proto_lancedb_output_format_name,
}
use vldb_controller.DataPlane.Formats.{Reads, input_default, output_default, enums-Reads}
use vldb_controller.Tests.Data.{runtime, started}

abbrev upstream : SqliteUpstream
upstream = record {
  connect = λ backend. ok 1;
  sqlite_execute_script = λ c sql params. ok (record {
    success = true;
    message = "ok";
    rows_changed = nonnegative 1;
    last_insert_rowid = nonnegative 1;
  });
  sqlite_execute_batch = λ c sql batch_params. ok (record {
    success = true;
    message = "ok";
    rows_changed = nonnegative 1;
    last_insert_rowid = nonnegative 1;
    statements_executed = nonnegative 1;
  });
  sqlite_query_json = λ c sql params. ok (record { json_data = "ok"; row_count = 1 });
  sqlite_tokenize_text = λ c tokenizer_mode text search_mode.
      ok (record { tokenizer_mode = "ok"; normalized_text = "ok"; tokens = []; fts_query = "ok" });
  sqlite_list_custom_words = λ c. ok (record { success = true; message = "ok"; words = [] });
  sqlite_upsert_custom_word =
      λ c word weight. ok (record { success = true; message = "ok"; affected_rows = 1 });
  sqlite_remove_custom_word =
      λ c word. ok (record { success = true; message = "ok"; affected_rows = 1 });
  sqlite_ensure_fts_index = λ c index_name tokenizer_mode.
      ok (record { success = true; message = "ok"; index_name = "ok"; tokenizer_mode = "ok" });
  sqlite_rebuild_fts_index = λ c index_name tokenizer_mode. ok (record {
    success = true;
    message = "ok";
    index_name = "ok";
    tokenizer_mode = "ok";
    reindexed_rows = 1;
  });
  sqlite_upsert_fts_document = λ c index_name tokenizer_mode id file_path title content.
      ok (record { success = true; message = "ok"; affected_rows = 1; index_name = "ok" });
  sqlite_delete_fts_document = λ c index_name id.
      ok (record { success = true; message = "ok"; affected_rows = 1; index_name = "ok" });
  sqlite_search_fts = λ c index_name tokenizer_mode query limit offset. ok (record {
    success = true;
    message = "ok";
    index_name = "ok";
    tokenizer_mode = "ok";
    normalized_query = "ok";
    fts_query = "ok";
    source = "ok";
    query_mode = "ok";
    total = 1;
    hits = [];
  });
}

abbrev engine : LanceDbUpstream
engine = record {
  parse_create_table = λ nullable text.
      success (record { table_name = "t"; columns = []; overwrite_if_exists = true });
  parse_upsert =
      λ text. success (record { table_name = "t"; input_format = "arrow"; key_columns = [] });
  parse_search = λ limit text. success (record {
    table_name = "t";
    vector = [];
    limit = limit;
    filter = "";
    vector_column = "";
    output_format = "json";
  });
  parse_delete = λ text. success (record { table_name = "t"; condition = "x" });
  open_default_engine = λ backend. ok 1;
  engine_create_table = λ c input. success (record { message = "ok" });
  engine_upsert = λ c input. success (record {
    message = "ok";
    version = 1;
    input_rows = 1;
    inserted_rows = 1;
    updated_rows = 1;
    deleted_rows = 1;
  });
  engine_search =
      λ c input. success (record { message = "ok"; format = "ok"; rows = 1; data_bytes = [] });
  engine_delete = λ c input. success (record { message = "ok"; version = 1; deleted_rows = 1 });
  engine_drop_table = λ c input. success (record { message = "ok" });
}

data_plane-IsGuarded_example :
    IsGuarded started
      (new-IsConsistent default_server_config 0 1_000)
      "s"
      "b"
      (some "alice")
      sqlite
      (Sqlite.execute_script_typed upstream "x" (int64_value (nonnegative 1) ∷ []))
      (execute_sqlite_script_typed started "s" "b"
        (some "alice")
        upstream
        "x"
        (int64_value (nonnegative 1) ∷ []))
    × IsGuarded started
        (new-IsConsistent default_server_config 0 1_000)
        "s"
        "b"
        (some "alice")
        sqlite
        (Sqlite.execute_batch_typed upstream "x" ((null_value ∷ []) ∷ []))
        (execute_sqlite_batch_typed started "s" "b"
          (some "alice")
          upstream
          "x"
          ((null_value ∷ []) ∷ []))
    × IsGuarded started
        (new-IsConsistent default_server_config 0 1_000)
        "s"
        "b"
        (some "alice")
        sqlite
        (Sqlite.query_json_typed upstream "x" (int64_value (nonnegative 1) ∷ []))
        (query_sqlite_json_typed started "s" "b"
          (some "alice")
          upstream
          "x"
          (int64_value (nonnegative 1) ∷ []))
    × IsGuarded started
        (new-IsConsistent default_server_config 0 1_000)
        "s"
        "b"
        (some "alice")
        sqlite
        (Sqlite.tokenize_text upstream jieba "x" true)
        (tokenize_sqlite_text started "s" "b" (some "alice") upstream jieba "x" true)
    × IsGuarded started
        (new-IsConsistent default_server_config 0 1_000)
        "s"
        "b"
        (some "alice")
        sqlite
        (Sqlite.list_custom_words upstream)
        (list_sqlite_custom_words started "s" "b" (some "alice") upstream)
    × IsGuarded started
        (new-IsConsistent default_server_config 0 1_000)
        "s"
        "b"
        (some "alice")
        sqlite
        (Sqlite.upsert_custom_word upstream "x" 1)
        (upsert_sqlite_custom_word started "s" "b" (some "alice") upstream "x" 1)
    × IsGuarded started
        (new-IsConsistent default_server_config 0 1_000)
        "s"
        "b"
        (some "alice")
        sqlite
        (Sqlite.remove_custom_word upstream "x")
        (remove_sqlite_custom_word started "s" "b" (some "alice") upstream "x")
    × IsGuarded started
        (new-IsConsistent default_server_config 0 1_000)
        "s"
        "b"
        (some "alice")
        sqlite
        (Sqlite.ensure_fts_index upstream "x" jieba)
        (ensure_sqlite_fts_index started "s" "b" (some "alice") upstream "x" jieba)
    × IsGuarded started
        (new-IsConsistent default_server_config 0 1_000)
        "s"
        "b"
        (some "alice")
        sqlite
        (Sqlite.rebuild_fts_index upstream "x" jieba)
        (rebuild_sqlite_fts_index started "s" "b" (some "alice") upstream "x" jieba)
    × IsGuarded started
        (new-IsConsistent default_server_config 0 1_000)
        "s"
        "b"
        (some "alice")
        sqlite
        (Sqlite.upsert_fts_document upstream "x" jieba "x" "x" "x" "x")
        (upsert_sqlite_fts_document started "s" "b"
          (some "alice")
          upstream
          "x"
          jieba
          "x"
          "x"
          "x"
          "x")
    × IsGuarded started
        (new-IsConsistent default_server_config 0 1_000)
        "s"
        "b"
        (some "alice")
        sqlite
        (Sqlite.delete_fts_document upstream "x" "x")
        (delete_sqlite_fts_document started "s" "b" (some "alice") upstream "x" "x")
    × IsGuarded started
        (new-IsConsistent default_server_config 0 1_000)
        "s"
        "b"
        (some "alice")
        sqlite
        (Sqlite.search_fts upstream "x" jieba "x" 1 1)
        (search_sqlite_fts started "s" "b" (some "alice") upstream "x" jieba "x" 1 1)
    × IsGuarded started
        (new-IsConsistent default_server_config 0 1_000)
        "s"
        "b"
        (some "alice")
        lancedb
        (LanceDb.create_table engine "x")
        (create_lancedb_table started "s" "b" (some "alice") engine "x")
    × IsGuarded started
        (new-IsConsistent default_server_config 0 1_000)
        "s"
        "b"
        (some "alice")
        lancedb
        (LanceDb.upsert engine "x" (1 ∷ []))
        (upsert_lancedb started "s" "b" (some "alice") engine "x" (1 ∷ []))
    × IsGuarded started
        (new-IsConsistent default_server_config 0 1_000)
        "s"
        "b"
        (some "alice")
        lancedb
        (LanceDb.search engine "x")
        (search_lancedb started "s" "b" (some "alice") engine "x")
    × IsGuarded started
        (new-IsConsistent default_server_config 0 1_000)
        "s"
        "b"
        (some "alice")
        lancedb
        (LanceDb.delete engine "x")
        (delete_lancedb started "s" "b" (some "alice") engine "x")
    × IsGuarded started
        (new-IsConsistent default_server_config 0 1_000)
        "s"
        "b"
        (some "alice")
        lancedb
        (LanceDb.drop_table engine "x")
        (drop_lancedb_table started "s" "b" (some "alice") engine "x")
data_plane-IsGuarded_example =
    data_plane-IsGuarded started (new-IsConsistent default_server_config 0 1_000) "s" "b"
      (some "alice") upstream engine "x" "x" "x" "x" "x" "x" "x" "x" "x" "x" "x"
      (int64_value (nonnegative 1) ∷ []) ((null_value ∷ []) ∷ []) jieba true 1 1 1 (1 ∷ [])

abbrev clock : Clock
clock = record { now = 5; begun_unix_ms = 3_000; called_unix_ms = 3_000 }

abbrev json : JsonWriter
json = record {
  create_table_text = λ input. success "c";
  upsert_text = λ input. success "u";
  search_text = λ input. success "s";
  delete_text = λ input. success "d";
}

data_handlers-IsServed_example :
    IsServed runtime clock "alice" "s" "b" started sqlite
      (traverse proto_sqlite_value_to_typed (record { kind = some null_value } ∷ []))
      (λ params. Sqlite.execute_script_typed upstream "x" params)
      (execute_sqlite_script_handler runtime clock upstream "alice" "s" "b" "x"
        (record { kind = some null_value } ∷ [])
        started)
    × IsServed runtime clock "alice" "s" "b" started sqlite
        (traverse (traverse proto_sqlite_value_to_typed) ((record { kind = none } ∷ []) ∷ []))
        (λ batch_params. Sqlite.execute_batch_typed upstream "x" batch_params)
        (execute_sqlite_batch_handler runtime clock upstream "alice" "s" "b" "x"
          ((record { kind = none } ∷ []) ∷ [])
          started)
    × IsServed runtime clock "alice" "s" "b" started sqlite
        (traverse proto_sqlite_value_to_typed (record { kind = some null_value } ∷ []))
        (λ params. Sqlite.query_json_typed upstream "x" params)
        (query_sqlite_json_handler runtime clock upstream "alice" "s" "b" "x"
          (record { kind = some null_value } ∷ [])
          started)
    × IsServed runtime clock "alice" "s" "b" started sqlite
        (map_sqlite_tokenizer_mode (nonnegative 2))
        (λ tokenizer_mode. Sqlite.tokenize_text upstream tokenizer_mode "x" true)
        (tokenize_sqlite_text_handler runtime clock upstream "alice" "s" "b"
          (nonnegative 2)
          "x"
          true
          started)
    × IsServed runtime clock "alice" "s" "b" started sqlite
        (success tt)
        (λ u. Sqlite.list_custom_words upstream)
        (list_sqlite_custom_words_handler runtime clock upstream "alice" "s" "b" started)
    × IsServed runtime clock "alice" "s" "b" started sqlite
        (success tt)
        (λ u. Sqlite.upsert_custom_word upstream "x" 1)
        (upsert_sqlite_custom_word_handler runtime clock upstream "alice" "s" "b" "x" 1 started)
    × IsServed runtime clock "alice" "s" "b" started sqlite
        (success tt)
        (λ u. Sqlite.remove_custom_word upstream "x")
        (remove_sqlite_custom_word_handler runtime clock upstream "alice" "s" "b" "x" started)
    × IsServed runtime clock "alice" "s" "b" started sqlite
        (map_sqlite_tokenizer_mode (nonnegative 2))
        (λ tokenizer_mode. Sqlite.ensure_fts_index upstream "x" tokenizer_mode)
        (ensure_sqlite_fts_index_handler runtime clock upstream "alice" "s" "b" "x"
          (nonnegative 2)
          started)
    × IsServed runtime clock "alice" "s" "b" started sqlite
        (map_sqlite_tokenizer_mode (nonnegative 2))
        (λ tokenizer_mode. Sqlite.rebuild_fts_index upstream "x" tokenizer_mode)
        (rebuild_sqlite_fts_index_handler runtime clock upstream "alice" "s" "b" "x"
          (nonnegative 2)
          started)
    × IsServed runtime clock "alice" "s" "b" started sqlite
        (map_sqlite_tokenizer_mode (nonnegative 2))
        (λ tokenizer_mode. Sqlite.upsert_fts_document upstream "x" tokenizer_mode "x" "x" "x" "x")
        (upsert_sqlite_fts_document_handler runtime clock upstream "alice" "s" "b" "x"
          (nonnegative 2)
          "x"
          "x"
          "x"
          "x"
          started)
    × IsServed runtime clock "alice" "s" "b" started sqlite
        (success tt)
        (λ u. Sqlite.delete_fts_document upstream "x" "x")
        (delete_sqlite_fts_document_handler runtime clock upstream "alice" "s" "b" "x" "x" started)
    × IsServed runtime clock "alice" "s" "b" started sqlite
        (map_sqlite_tokenizer_mode (nonnegative 2))
        (λ tokenizer_mode. Sqlite.search_fts upstream "x" tokenizer_mode "x" 1 1)
        (search_sqlite_fts_handler runtime clock upstream "alice" "s" "b" "x"
          (nonnegative 2)
          "x"
          1
          1
          started)
    × IsServed runtime clock "alice" "s" "b" started lancedb
        (create_table_json json "t"
          (record { name = "n"; column_type = nonnegative 1; vector_dim = 0; nullable = true } ∷ [])
          true)
        (λ request_json. LanceDb.create_table engine request_json)
        (create_lance_db_table_handler runtime clock engine json "alice" "s" "b" "t"
          (record { name = "n"; column_type = nonnegative 1; vector_dim = 0; nullable = true } ∷ [])
          true
          started)
    × IsServed runtime clock "alice" "s" "b" started lancedb
        (upsert_json json "t" (nonnegative 1) [])
        (λ request_json. LanceDb.upsert engine request_json (1 ∷ []))
        (upsert_lance_db_handler runtime clock engine json "alice" "s" "b" "t"
          (nonnegative 1)
          []
          (1 ∷ [])
          started)
    × IsServed runtime clock "alice" "s" "b" started lancedb
        (search_json json "t" (0 ∷ []) 1 "f" "v" (nonnegative 2))
        (λ request_json. LanceDb.search engine request_json)
        (search_lance_db_handler runtime clock engine json "alice" "s" "b" "t"
          (0 ∷ [])
          1
          "f"
          "v"
          (nonnegative 2)
          started)
    × IsServed runtime clock "alice" "s" "b" started lancedb
        (delete_json json "t" "c")
        (λ request_json. LanceDb.delete engine request_json)
        (delete_lance_db_handler runtime clock engine json "alice" "s" "b" "t" "c" started)
    × IsServed runtime clock "alice" "s" "b" started lancedb
        (success "t")
        (λ table_name. LanceDb.drop_table engine table_name)
        (drop_lance_db_table_handler runtime clock engine json "alice" "s" "b" "t" started)
data_handlers-IsServed_example =
    data_handlers-IsServed runtime clock "alice" "s" "b" started
      (new-IsConsistent default_server_config 0 1_000) upstream engine json "x" "x" "x" "x" "x" "x"
      "x" "x" "x" (record { kind = some null_value } ∷ []) ((record { kind = none } ∷ []) ∷ [])
      (nonnegative 2) true 1 1 1 "t" "f" "v" "c"
      (record { name = "n"; column_type = nonnegative 1; vector_dim = 0; nullable = true } ∷ [])
      true (nonnegative 1) (nonnegative 2) [] (1 ∷ []) (0 ∷ [])

enums-Reads_example :
    (Reads parse_column_type
        (proto_lancedb_column_type_name (column_type_to_proto_value float32))
        float32
      × Reads parse_lancedb_column_type
          (proto_lancedb_column_type_name (column_type_to_proto_value float32))
          float32)
    × (Reads parse_input_format
          (proto_lancedb_input_format_name (input_format_to_proto_value unspecified_input))
          (input_default unspecified_input)
        × Reads parse_lancedb_input_format
            (proto_lancedb_input_format_name (input_format_to_proto_value unspecified_input))
            unspecified_input)
    × (Reads parse_output_format
          (proto_lancedb_output_format_name (output_format_to_proto_value json_rows_output))
          (output_default json_rows_output)
        × Reads parse_lancedb_output_format
            (proto_lancedb_output_format_name (output_format_to_proto_value json_rows_output))
            (output_default json_rows_output))
enums-Reads_example = enums-Reads float32 unspecified_input json_rows_output
