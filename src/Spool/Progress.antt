-- ===== src/Spool/Progress.antt =====
-- controller/src/core/sqlite.rs: the stream ends. The writer fails only where the operating system does, and
-- the background thread leaves no reader waiting.
use vldb_controller.Base.{
  ℕ, zero, suc, ◌≡◌, refl, Bool, true, false, Option, none, some, List, [], ◌∷◌, ◌++◌, length,
  String, leb, is_some, unwrap_or, ◌<◌, ◌≤◌, arith, leb→le, lt→leb-false,
}
use vldb_controller.Base.Lists.{get_elem?, take, drop, length-drop}
use vldb_controller.Base.Except.{Except, success, failure}
use vldb_controller.Spool.Handle.{
  ChunkDescriptor, SharedInner, QueryStreamMetrics, StreamError, read_result, read_chunk,
  find_chunk, missing_chunk, wait_for_metrics, is_complete, new_handle, finish, fail,
}
use vldb_controller.Spool.Writer.{
  ControllerStreamingTempFileWriter, Step, and_then, write_chunk, record_chunk, emit_first,
  emit_full_within, emit_full_chunks, emit_remaining, write, write_each, flush, conclude,
  start_query_stream_values, new_writer, run_writer,
}
use vldb_controller.Spool.Delivery.{spool}

-- The step succeeds, and the chunks of the writer have a size still.
abbrev Succeeds : Step → Type 0
Succeeds s = (s.0 ≡ success tt) × (0 < s.1.target_chunk_size)

module _ (write_all : List ℕ → List ℕ → Except String (List ℕ))
    (writes : (file chunk : List ℕ) → write_all file chunk ≡ success (file ++ chunk)) where
  and_then-Succeeds :
      (s : Step) (next : ControllerStreamingTempFileWriter → Step)
      → Succeeds s
      → ((w : ControllerStreamingTempFileWriter) → 0 < w.target_chunk_size → Succeeds (next w))
      → Succeeds (and_then s next)
  and_then-Succeeds (success u, w) next h k = k w h.1
  and_then-Succeeds (failure e, w) next h k = h

  write_chunk-success :
      (chunk : List ℕ) (w : ControllerStreamingTempFileWriter)
      → write_chunk write_all chunk w ≡ (success tt, record_chunk (w.file ++ chunk) chunk w)
  unfolding write_chunk
  write_chunk-success chunk w = rw (write_chunk, writes w.file chunk) refl

  write_chunk-Succeeds :
      (chunk : List ℕ) (w : ControllerStreamingTempFileWriter)
      → 0 < w.target_chunk_size
      → Succeeds (write_chunk write_all chunk w)
  unfolding record_chunk
  write_chunk-Succeeds chunk w h = rw (write_chunk-success chunk w) (refl, h)

  -- Every round takes a chunk off the buffer, so the loop ends before its fuel does.
  emit_full-Succeeds :
      (fuel : ℕ) (w : ControllerStreamingTempFileWriter)
      → length w.pending ≤ fuel
      → 0 < w.target_chunk_size
      → Succeeds (emit_full_within write_all fuel w)
  unfolding emit_full_within record_chunk
  emit_full-Succeeds zero w f h =
      rw (emit_full_within, lt→leb-false w.target_chunk_size (length w.pending) (omega arith))
        (refl, h)
  emit_full-Succeeds (suc fuel) w f h =
      go (λ v. emit_full-Succeeds fuel v) (leb w.target_chunk_size (length w.pending)) refl
    where
      go :
          ((v : ControllerStreamingTempFileWriter)
            → length v.pending ≤ fuel
            → 0 < v.target_chunk_size
            → Succeeds (emit_full_within write_all fuel v))
          → (b : Bool) → leb w.target_chunk_size (length w.pending) ≡ b
          → Succeeds (elim b [
            | true ↦ and_then (emit_first write_all w) (emit_full_within write_all fuel)
            | false ↦ (success tt, w)
          ])
      go next true e =
          rw
            (write_chunk-success (take w.target_chunk_size w.pending)
              (record w { pending = drop w.target_chunk_size w.pending }))
            (next _ (omega (arith, length-drop w.target_chunk_size w.pending, leb→le _ _ e)) h)
      go next false e = (refl, h)

  write-Succeeds :
      (buf : List ℕ) (w : ControllerStreamingTempFileWriter)
      → 0 < w.target_chunk_size
      → Succeeds (write write_all buf w)
  unfolding write emit_full_chunks
  write-Succeeds [] w h = (refl, h)
  write-Succeeds (b ∷ bs) w h =
      emit_full-Succeeds (length (w.pending ++ (b ∷ bs)))
        (record w { pending = w.pending ++ (b ∷ bs) }) (omega arith) h

  write_each-Succeeds :
      (bufs : List (List ℕ)) (w : ControllerStreamingTempFileWriter)
      → 0 < w.target_chunk_size
      → Succeeds (write_each write_all bufs w)
  unfolding write_each
  write_each-Succeeds [] w h = (refl, h)
  write_each-Succeeds (buf ∷ rest) w h =
      and_then-Succeeds (write write_all buf w) (write_each write_all rest) (write-Succeeds buf w h)
        (write_each-Succeeds rest)

  emit_remaining-Succeeds :
      (w : ControllerStreamingTempFileWriter)
      → 0 < w.target_chunk_size
      → Succeeds (emit_remaining write_all w)
  unfolding emit_remaining
  emit_remaining-Succeeds w h = go w.pending
    where
      go :
          (p : List ℕ)
          → Succeeds (elim p [
            | [] ↦ (success tt, w)
            | ◌∷◌ b bs ↦ write_chunk write_all (b ∷ bs) (record w { pending = [] })
          ])
      go [] = (refl, h)
      go (b ∷ bs) = write_chunk-Succeeds (b ∷ bs) _ h

  -- When the file takes all writes and its flush succeeds, the whole stream is written without an error and
  -- every loop that takes chunks off the buffer ends, whatever the buffers and the state of the writer are, if
  -- its chunks have a size of at least one byte. A loop that did not end would be answered with a failure.
  pub spool-success :
      (sync : List ℕ → Except String (Unit {0})) (bufs : List (List ℕ))
      (w : ControllerStreamingTempFileWriter)
      → 0 < w.target_chunk_size
      → ((file : List ℕ) → sync file ≡ success tt)
      → (spool write_all sync bufs w).0 ≡ success tt
  unfolding flush
  spool-success sync bufs w size syncs =
      (and_then-Succeeds (write_each write_all bufs w) (flush write_all sync)
        (write_each-Succeeds bufs w size)
        (λ v k.
          and_then-Succeeds (emit_remaining write_all v) (λ x. (sync x.file, x))
            (emit_remaining-Succeeds v k) (λ x l. (syncs x.file, l)))).0

-- A concluded stream.
abbrev pub IsConcluded : SharedInner → Type 0
IsConcluded state =
    (is_complete state ≡ true)
    × (is_some (wait_for_metrics state) ≡ true)
    × ((read_at : String → ℕ → ℕ → Except String (List ℕ)) (index : ℕ)
        → is_some (read_chunk read_at index state) ≡ true)

module _ (state : SharedInner) (h : state.complete ≡ true) where
  missing-is_some : (i : ℕ) (e : Option String) → is_some (missing_chunk i e state.complete) ≡ true
  missing-is_some i none = rw h refl
  missing-is_some i (some m) = refl

  find-is_some : (i : ℕ) → is_some (find_chunk i state) ≡ true
  unfolding find_chunk
  find-is_some i = go (get_elem? state.chunk_descriptors i)
    where
      go :
          (d : Option ChunkDescriptor)
          → is_some (elim d [
            | some descriptor ↦ some (success descriptor)
            | none ↦ missing_chunk i state.error state.complete
          ])
            ≡ true
      go (some d) = refl
      go none = missing-is_some i state.error

  read-is_some :
      (read_at : String → ℕ → ℕ → Except String (List ℕ)) (i : ℕ)
      → is_some (read_chunk read_at i state) ≡ true
  unfolding read_chunk
  read-is_some read_at i = go (find_chunk i state) (find-is_some i)
    where
      go :
          (f : Option (Except StreamError ChunkDescriptor))
          → is_some f ≡ true
          → is_some (elim f [
            | none ↦ none
            | some (failure e) ↦ some (failure e)
            | some (success d) ↦ some (read_result (read_at state.file_path d.offset d.len))
          ])
            ≡ true
      go none e = e
      go (some (failure x)) e = refl
      go (some (success d)) e = refl

  concluded : IsConcluded state
  unfolding is_complete wait_for_metrics
  concluded = (h, rw h refl, read-is_some)

conclude-complete :
    (now : ℕ) (r : Except String QueryStreamMetrics) (s : SharedInner)
    → (conclude now r s).complete ≡ true
unfolding conclude finish fail
conclude-complete now (success m) s = refl
conclude-complete now (failure e) s = refl

run-complete :
    (now : ℕ)
    (query : ControllerStreamingTempFileWriter
      → Except String QueryStreamMetrics × ControllerStreamingTempFileWriter)
    (s : SharedInner) (w : Except String ControllerStreamingTempFileWriter)
    → (run_writer now query s w).complete ≡ true
run-complete now query s (failure e) = conclude-complete now (failure e) s
run-complete now query s (success w) = conclude-complete now (query w).0 (query w).1.state

-- The background thread always concludes the stream: whatever opening, creating the file and the query
-- answer, the stream is complete, the metrics are there or the error is, and no reader waits.
pub start-IsConcluded :
    (create : String → Except String (Unit {0}))
    (query : ControllerStreamingTempFileWriter
      → Except String QueryStreamMetrics × ControllerStreamingTempFileWriter)
    (opened : Except String (Unit {0})) (default_size : ℕ) (size : Option ℕ) (path : String)
    (now : ℕ)
    → IsConcluded (start_query_stream_values create query opened default_size size path now)
unfolding start_query_stream_values
start-IsConcluded create query (failure e) default_size size path now =
    concluded _ (conclude-complete now (failure e) (new_handle path))
start-IsConcluded create query (success u) default_size size path now = concluded _ (
    run-complete now query (new_handle path)
      (new_writer create (new_handle path) (unwrap_or size default_size)))
