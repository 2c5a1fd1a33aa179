-- ===== src/Spool/Delivery.antt =====
-- controller/src/core/sqlite.rs: what the readers of a query stream get, from the creation of the writer to
-- the end of the background thread.
use mathlib.Core.Option
use vldb_controller.Base.{
  ℕ, zero, suc, ◌+◌, ◌*◌, ◌≤◌, ◌≡◌, refl, ap, sym, ◌∙◌, subst, true, Option, none, some, List, [],
  ◌∷◌, length, arith, String, max,
}
use vldb_controller.Base.Lists.{take, drop, concat, get_elem?, length-append}
use vldb_controller.Base.Word.{u64_max}
use vldb_controller.Base.Except.{Except, success, failure}
use vldb_controller.Spool.Handle.{
  ChunkDescriptor, SharedInner, QueryStreamMetrics, StreamError, out_of_bounds, read_chunk, finish,
  find_chunk, new_handle,
}
use vldb_controller.Spool.Writer.{
  ControllerStreamingTempFileWriter, Step, and_then, write_each, flush, emit_remaining,
  empty_writer, conclude, emitted_chunk_count, emitted_total_bytes,
}
use vldb_controller.Spool.Pieces.{IsChunking, descriptors_from, part, part_at}
use vldb_controller.Spool.Invariant.{IsAppend, IsRecorded, IsDrained, Holds, Holds-and_then}
use vldb_controller.Spool.Stream.{IsWritten, write_each-IsDrained, emit_remaining-IsWritten}

-- Reading `len` bytes at an offset inside the file gives these bytes.
abbrev pub IsReadAt : (String → ℕ → ℕ → Except String (List ℕ)) → String → List ℕ → Type 0
IsReadAt read_at path file =
    (offset len : ℕ)
    → offset + len ≤ length file
    → read_at path offset len ≡ success (take len (drop offset file))

-- The answer to a reader, of the chunk or of no chunk at the index.
abbrev pub chunk_or_end : ℕ → Option (List ℕ) → Except StreamError (List ℕ)
chunk_or_end index (some piece) = success piece
chunk_or_end index none = failure (out_of_bounds index)

-- What the readers of a completed stream get: `bytes_in` in chunks of `size` bytes.
pub record IsDelivered (read_at : String → ℕ → ℕ → Except String (List ℕ)) (size : ℕ)
    (bytes_in : List ℕ) (state : SharedInner) : Type 0 where
  pub pieces : List (List ℕ)
  pub whole : concat pieces ≡ bytes_in
  pub chunking : IsChunking size pieces
  pub count : state.chunk_count ≡ length pieces
  pub bytes : state.total_bytes ≡ length bytes_in
  pub reads :
      (index : ℕ)
      → read_chunk read_at index state ≡ some (chunk_or_end index (get_elem? pieces index))

-- The metrics of the upstream query.
abbrev pub metrics_of : ℕ → ControllerStreamingTempFileWriter → QueryStreamMetrics
metrics_of rows writer = record {
  row_count = rows;
  chunk_count = emitted_chunk_count writer;
  total_bytes = emitted_total_bytes writer;
}

-- The end of a described piece, or nothing.
abbrev end_of : Option ChunkDescriptor → ℕ
end_of none = 0
end_of (some d) = d.offset + d.len

-- The pieces lie in the file.
inside :
    (o : ℕ) (ps : List (List ℕ)) (i : ℕ)
    → end_of (get_elem? (descriptors_from o ps) i) ≤ o + length (concat ps)
inside o [] i = omega arith
inside o (p ∷ ps) zero = omega (arith, length-append p (concat ps))
inside o (p ∷ ps) (suc i) = omega (arith, inside (o + length p) ps i, length-append p (concat ps))

module _ (read_at : String → ℕ → ℕ → Except String (List ℕ)) (i : ℕ) (s : SharedInner) where
  read-found :
      (d : ChunkDescriptor) (piece : List ℕ)
      → get_elem? s.chunk_descriptors i ≡ some d
      → read_at s.file_path d.offset d.len ≡ success piece
      → read_chunk read_at i s ≡ some (success piece)
  unfolding read_chunk find_chunk
  read-found d piece e f = rw (read_chunk, find_chunk, e, f) refl

  read-past :
      get_elem? s.chunk_descriptors i ≡ none
      → s.error ≡ none
      → s.complete ≡ true
      → read_chunk read_at i s ≡ some (failure (out_of_bounds i))
  unfolding read_chunk find_chunk
  read-past e f g = rw (read_chunk, find_chunk, e, f, g) refl

module _ (read_at : String → ℕ → ℕ → Except String (List ℕ)) (w : ControllerStreamingTempFileWriter)
    (pieces : List (List ℕ)) (h : IsRecorded pieces w) (now : ℕ) (m : QueryStreamMetrics)
    (reading : IsReadAt read_at w.state.file_path w.file) (i : ℕ) where
  answered :
      (d : Option ChunkDescriptor)
      → get_elem? w.state.chunk_descriptors i ≡ d
      → end_of d ≤ length w.file
      → read_chunk read_at i (finish now m w.state)
        ≡ some (chunk_or_end i (Option.map (λ d. part d w.file) d))
  unfolding finish
  answered none e f = read-past read_at i (finish now m w.state) e h.running refl
  answered (some d) e f =
      read-found read_at i (finish now m w.state) d (part d w.file) e (reading d.offset d.len f)

  read-piece :
      read_chunk read_at i (finish now m w.state) ≡ some (chunk_or_end i (get_elem? pieces i))
  read-piece =
      answered (get_elem? w.state.chunk_descriptors i) refl (
        subst (λ ds. end_of (get_elem? ds i) ≤ length w.file) (sym h.described)
          (omega (arith, inside 0 pieces i, ap length h.file_is)))
      ∙ ap (λ p. some (chunk_or_end i p))
          (ap (λ ds. Option.map (λ d. part d w.file) (get_elem? ds i)) h.described
            ∙ subst
                (λ f.
                  Option.map (λ d. part d f) (get_elem? (descriptors_from 0 pieces) i)
                  ≡ get_elem? pieces i)
                h.file_is (part_at [] pieces i))

-- A new writer has written nothing.
empty_writer-IsDrained :
    (path : String) (size : ℕ)
    → IsDrained (max size (64 * 1024)) [] (empty_writer (new_handle path) size)
unfolding new_handle
empty_writer-IsDrained path size = (
  record {
    pieces = [];
    recorded = record {
      file_is = refl;
      described = refl;
      offset = refl;
      bytes = refl;
      chunks = refl;
      counted = omega arith;
      running = refl;
    };
    full = tt;
    all = refl;
    target = omega arith;
    sized = refl;
  },
  omega arith,
)

flush-IsWritten :
    (write_all : List ℕ → List ℕ → Except String (List ℕ)) (appends : IsAppend write_all)
    (sync : List ℕ → Except String (Unit {0})) (size : ℕ) (input : List ℕ)
    (w : ControllerStreamingTempFileWriter)
    → length input ≤ u64_max
    → IsDrained size input w
    → Holds (IsWritten size input) (flush write_all sync w)
unfolding flush
flush-IsWritten write_all appends sync size input w small h =
    Holds-and_then (IsWritten size input) (IsWritten size input) (emit_remaining write_all w)
      (λ v. (sync v.file, v)) (emit_remaining-IsWritten write_all appends size input small w h)
      (λ v k. synced v (sync v.file) k)
  where
    synced :
        (v : ControllerStreamingTempFileWriter) (r : Except String (Unit {0}))
        → IsWritten size input v
        → Holds (IsWritten size input) (r, v)
    synced v (success u) k = k
    synced v (failure e) k = tt

-- The writes of the upstream query, and the flush at its end.
abbrev pub spool :
    (List ℕ → List ℕ → Except String (List ℕ))
    → (List ℕ → Except String (Unit {0}))
    → List (List ℕ)
    → ControllerStreamingTempFileWriter
    → Step
spool write_all sync bufs writer =
    and_then (write_each write_all bufs writer) (flush write_all sync)

-- When the file is written at its end and read as it was written, a stream of at most 2^64 - 1 bytes whose
-- writes and flush succeed is delivered: reading chunk after chunk gives exactly the written bytes, all
-- chunks but the last have the requested size, at least 64 KiB, the metrics count chunks and bytes, and
-- an index past the last chunk is refused.
pub spool-IsDelivered :
    (write_all : List ℕ → List ℕ → Except String (List ℕ))
    (sync : List ℕ → Except String (Unit {0})) (read_at : String → ℕ → ℕ → Except String (List ℕ))
    (path : String) (size : ℕ) (bufs : List (List ℕ)) (last : ControllerStreamingTempFileWriter)
    (rows now : ℕ)
    → IsAppend write_all
    → length (concat bufs) ≤ u64_max
    → spool write_all sync bufs (empty_writer (new_handle path) size) ≡ (success tt, last)
    → IsReadAt read_at last.state.file_path last.file
    → IsDelivered read_at
        (max size (64 * 1024))
        (concat bufs)
        (conclude now (success (metrics_of rows last)) last.state)
unfolding conclude emitted_chunk_count emitted_total_bytes finish
spool-IsDelivered write_all sync read_at path size bufs last rows now appends small e reading =
    delivered (
      subst (Holds (IsWritten (max size (64 * 1024)) (concat bufs))) e (
        Holds-and_then (IsDrained (max size (64 * 1024)) (concat bufs))
          (IsWritten (max size (64 * 1024)) (concat bufs))
          (write_each write_all bufs (empty_writer (new_handle path) size)) (flush write_all sync)
          (write_each-IsDrained write_all appends (max size (64 * 1024)) [] bufs
            (empty_writer (new_handle path) size) small (empty_writer-IsDrained path size))
          (λ v k.
            flush-IsWritten write_all appends sync (max size (64 * 1024)) (concat bufs) v small k)))
  where
    delivered :
        IsWritten (max size (64 * 1024)) (concat bufs) last
        → IsDelivered read_at
            (max size (64 * 1024))
            (concat bufs)
            (finish now (metrics_of rows last) last.state)
    delivered h = record {
      pieces = h.pieces;
      whole = h.recorded.file_is ∙ h.file;
      chunking = h.chunking;
      count = h.recorded.chunks;
      bytes = h.recorded.bytes ∙ ap length h.file;
      reads = read-piece read_at last h.pieces h.recorded now (metrics_of rows last) reading;
    }
