-- ===== src/Spool/Writer.antt =====
-- controller/src/core/sqlite.rs: `ControllerStreamingTempFileWriter`. The file is the list of the bytes
-- in it, and `write_all file chunk` is the file after `chunk` is written at its end, or an error of the
-- operating system.
use vldb_controller.Base.{
  ℕ, zero, suc, ◌*◌, String, true, false, Option, List, [], ◌∷◌, ◌++◌, length, leb, max, unwrap_or,
}
use vldb_controller.Base.Lists.{take, drop}
use vldb_controller.Base.Word.{saturating_add}
use vldb_controller.Base.Except.{Except, success, failure}
use vldb_controller.Spool.Handle.{
  SharedInner, QueryStreamMetrics, register_chunk, new_handle, finish, fail,
}

pub record ControllerStreamingTempFileWriter : Type 0 where
  pub file : List ℕ
  pub state : SharedInner
  pub pending : List ℕ
  pub target_chunk_size : ℕ
  pub emitted_chunks : ℕ
  pub emitted_bytes : ℕ
  pub current_offset : ℕ

abbrev pub empty_writer : SharedInner → ℕ → ControllerStreamingTempFileWriter
empty_writer state target_chunk_size = record {
  file = [];
  state = state;
  pending = [];
  target_chunk_size = max target_chunk_size (64 * 1024);
  emitted_chunks = 0;
  emitted_bytes = 0;
  current_offset = 0;
}

-- `create file_path` makes an empty file or fails.
unfoldable pub new_writer :
    (String → Except String (Unit {0}))
    → SharedInner
    → ℕ
    → Except String ControllerStreamingTempFileWriter
new_writer create state target_chunk_size = elim (create state.file_path) [
  | success _ ↦ success (empty_writer state target_chunk_size)
  | failure e ↦ failure e
]

-- A step of the writer: its answer, and the writer as the step leaves it.
abbrev pub Step : Type 0
Step = Except String (Unit {0}) × ControllerStreamingTempFileWriter

-- The answer of a loop that has not ended, which no writer whose chunks have a size gives.
abbrev pub unfinished : String
unfinished = "the loop has not ended"

-- `?` between two steps.
abbrev pub and_then : Step → (ControllerStreamingTempFileWriter → Step) → Step
and_then (success _, writer) next = next writer
and_then (failure e, writer) next = (failure e, writer)

-- What is recorded of a chunk that is in the file.
unfoldable pub record_chunk :
    List ℕ → List ℕ → ControllerStreamingTempFileWriter → ControllerStreamingTempFileWriter
unfolding register_chunk
record_chunk file chunk writer = record writer {
  file = file;
  state = register_chunk writer.current_offset (length chunk) writer.state;
  current_offset = saturating_add writer.current_offset (length chunk);
  emitted_chunks = saturating_add writer.emitted_chunks 1;
  emitted_bytes = saturating_add writer.emitted_bytes (length chunk);
}

module _ (write_all : List ℕ → List ℕ → Except String (List ℕ)) where
  unfoldable pub write_chunk : List ℕ → ControllerStreamingTempFileWriter → Step
  unfolding record_chunk
  write_chunk chunk writer = elim (write_all writer.file chunk) [
    | success file ↦ (success tt, record_chunk file chunk writer)
    | failure e ↦ (failure e, writer)
  ]

  -- The chunk that is taken off the front of the buffer is written.
  abbrev pub emit_first : ControllerStreamingTempFileWriter → Step
  emit_first writer =
      write_chunk (take writer.target_chunk_size writer.pending)
        (record writer { pending = drop writer.target_chunk_size writer.pending })

  -- The `while` loop, which tests its condition before each round. A loop that still has a full chunk when its
  -- fuel is used up has not ended, which is an answer of its own kind.
  unfoldable pub emit_full_within : ℕ → ControllerStreamingTempFileWriter → Step
  emit_full_within zero writer = elim (leb writer.target_chunk_size (length writer.pending)) [
    | true ↦ (failure unfinished, writer)
    | false ↦ (success tt, writer)
  ]
  emit_full_within (suc fuel) writer = elim (leb writer.target_chunk_size (length writer.pending)) [
    | true ↦ and_then (emit_first writer) (emit_full_within fuel)
    | false ↦ (success tt, writer)
  ]

  unfoldable pub emit_full_chunks : ControllerStreamingTempFileWriter → Step
  unfolding emit_full_within
  emit_full_chunks writer = emit_full_within (length writer.pending) writer

  unfoldable pub emit_remaining : ControllerStreamingTempFileWriter → Step
  unfolding write_chunk
  emit_remaining writer = elim writer.pending [
    | [] ↦ (success tt, writer)
    | ◌∷◌ b bs ↦ write_chunk (b ∷ bs) (record writer { pending = [] })
  ]

  -- `write`, which accepts all bytes or fails.
  unfoldable pub write : List ℕ → ControllerStreamingTempFileWriter → Step
  unfolding emit_full_chunks
  write [] writer = (success tt, writer)
  write (b ∷ bs) writer = emit_full_chunks (record writer { pending = writer.pending ++ (b ∷ bs) })

  -- `sync` is the flush of the file itself.
  unfoldable pub flush :
      (List ℕ → Except String (Unit {0})) → ControllerStreamingTempFileWriter → Step
  unfolding emit_remaining
  flush sync writer = and_then (emit_remaining writer) (λ w. (sync w.file, w))

  -- The calls of `write` that the upstream query makes, one after another.
  unfoldable pub write_each : List (List ℕ) → ControllerStreamingTempFileWriter → Step
  unfolding write
  write_each [] writer = (success tt, writer)
  write_each (buf ∷ rest) writer = and_then (write buf writer) (write_each rest)

unfoldable pub emitted_chunk_count : ControllerStreamingTempFileWriter → ℕ
emitted_chunk_count writer = writer.emitted_chunks

unfoldable pub emitted_total_bytes : ControllerStreamingTempFileWriter → ℕ
emitted_total_bytes writer = writer.emitted_bytes

-- The end of the background thread: the handle that the readers see.
unfoldable pub conclude : ℕ → Except String QueryStreamMetrics → SharedInner → SharedInner
unfolding finish fail
conclude now_unix_ms (success metrics) state = finish now_unix_ms metrics state
conclude now_unix_ms (failure e) state = fail now_unix_ms e state

abbrev pub run_writer :
    ℕ
    → (ControllerStreamingTempFileWriter
        → Except String QueryStreamMetrics × ControllerStreamingTempFileWriter)
    → SharedInner
    → Except String ControllerStreamingTempFileWriter
    → SharedInner
run_writer now_unix_ms query state (failure e) = conclude now_unix_ms (failure e) state
run_writer now_unix_ms query state (success writer) =
    let (result, last) = query writer in conclude now_unix_ms result last.state

-- The background thread of `start_query_stream_values`: `opened` is what opening the database and the
-- connection gives, `query` is the upstream query, which writes to the writer and tells its metrics, and
-- `default_size` is the upstream chunk size.
unfoldable pub start_query_stream_values :
    (String → Except String (Unit {0}))
    → (ControllerStreamingTempFileWriter
        → Except String QueryStreamMetrics × ControllerStreamingTempFileWriter)
    → Except String (Unit {0})
    → ℕ
    → Option ℕ
    → String
    → ℕ
    → SharedInner
unfolding new_writer new_handle conclude
start_query_stream_values create query (failure e) default_size size file_path now_unix_ms =
    conclude now_unix_ms (failure e) (new_handle file_path)
start_query_stream_values create query (success _) default_size size file_path now_unix_ms =
    run_writer now_unix_ms query (new_handle file_path)
      (new_writer create (new_handle file_path) (unwrap_or size default_size))
