-- ===== src/Spool/Handle.antt =====
-- controller/src/core/sqlite.rs: the state that the writer and the readers of a query stream share. Each
-- method locks it once; a lock whose holder failed is refused by the readers and taken over by the rest,
-- and no holder fails here. What the operating system does is in the arguments.
use vldb_controller.Base.{
  ℕ, String, Bool, true, false, Option, none, some, List, [], ◌∷◌, ◌++◌, if◌then◌else◌,
}
use vldb_controller.Base.Lists.{get_elem?}
use vldb_controller.Base.Except.{Except, success, failure}

pub record ChunkDescriptor : Type 0 where
  pub offset : ℕ
  pub len : ℕ

pub record SharedInner : Type 0 where
  pub file_path : String
  pub chunk_descriptors : List ChunkDescriptor
  pub row_count : ℕ
  pub chunk_count : ℕ
  pub total_bytes : ℕ
  pub complete : Bool
  pub completed_at_unix_ms : Option ℕ
  pub error : Option String

pub record QueryStreamMetrics : Type 0 where
  pub row_count : ℕ
  pub chunk_count : ℕ
  pub total_bytes : ℕ

-- What a reader is refused with: the error of the background thread, an index past the last chunk, or
-- an error of the file system.
pub data StreamError : Type 0 where
  failed : String → StreamError
  out_of_bounds : ℕ → StreamError
  io : String → StreamError

unfoldable pub new_handle : String → SharedInner
new_handle file_path = record {
  file_path = file_path;
  chunk_descriptors = [];
  row_count = 0;
  chunk_count = 0;
  total_bytes = 0;
  complete = false;
  completed_at_unix_ms = none;
  error = none;
}

unfoldable pub register_chunk : ℕ → ℕ → SharedInner → SharedInner
register_chunk offset len inner = record inner {
  chunk_descriptors = inner.chunk_descriptors ++ (record { offset = offset; len = len } ∷ []);
}

unfoldable pub finish : ℕ → QueryStreamMetrics → SharedInner → SharedInner
finish now_unix_ms metrics inner = record inner {
  row_count = metrics.row_count;
  chunk_count = metrics.chunk_count;
  total_bytes = metrics.total_bytes;
  complete = true;
  completed_at_unix_ms = some now_unix_ms;
}

unfoldable pub fail : ℕ → String → SharedInner → SharedInner
fail now_unix_ms message inner = record inner {
  error = some message;
  complete = true;
  completed_at_unix_ms = some now_unix_ms;
}

-- `none` is a reader that waits for the next notification.
abbrev terminal : Option String → SharedInner → Except StreamError QueryStreamMetrics
terminal (some message) inner = failure (failed message)
terminal none inner = success (record {
  row_count = inner.row_count;
  chunk_count = inner.chunk_count;
  total_bytes = inner.total_bytes;
})

unfoldable pub wait_for_metrics : SharedInner → Option (Except StreamError QueryStreamMetrics)
wait_for_metrics inner = if inner.complete then some (terminal inner.error inner) else none

abbrev pub missing_chunk : ℕ → Option String → Bool → Option (Except StreamError ChunkDescriptor)
missing_chunk index (some message) complete = some (failure (failed message))
missing_chunk index none true = some (failure (out_of_bounds index))
missing_chunk index none false = none

-- One round of the loop of `read_chunk`.
unfoldable pub find_chunk : ℕ → SharedInner → Option (Except StreamError ChunkDescriptor)
find_chunk index inner = elim (get_elem? inner.chunk_descriptors index) [
  | some descriptor ↦ some (success descriptor)
  | none ↦ missing_chunk index inner.error inner.complete
]

abbrev pub read_result : Except String (List ℕ) → Except StreamError (List ℕ)
read_result (success bytes) = success bytes
read_result (failure message) = failure (io message)

-- `read_at path offset len` opens the file, seeks and reads exactly that many bytes.
unfoldable pub read_chunk :
    (String → ℕ → ℕ → Except String (List ℕ))
    → ℕ
    → SharedInner
    → Option (Except StreamError (List ℕ))
unfolding find_chunk
read_chunk read_at index inner = elim (find_chunk index inner) [
  | none ↦ none
  | some (failure e) ↦ some (failure e)
  | some (success d) ↦ some (read_result (read_at inner.file_path d.offset d.len))
]

unfoldable pub is_complete : SharedInner → Bool
is_complete inner = inner.complete

unfoldable pub completed_at : SharedInner → Option ℕ
completed_at inner = inner.completed_at_unix_ms
