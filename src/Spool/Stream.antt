-- ===== src/Spool/Stream.antt =====
-- controller/src/core/sqlite.rs: a whole query stream, from the writes of the upstream query to what the
-- readers get.
use vldb_controller.Base.{
  ℕ, ◌≤◌, ◌≡◌, refl, ap, sym, ◌∙◌, subst, List, [], ◌∷◌, ◌++◌, length, arith, String,
}
use vldb_controller.Base.Lists.{concat, length-append, append_nil, append_assoc}
use vldb_controller.Base.Word.{u64_max}
use vldb_controller.Base.Except.{Except, success, failure}
use vldb_controller.Spool.Writer.{
  ControllerStreamingTempFileWriter, and_then, write_chunk, emit_full_chunks, emit_remaining, write,
  write_each, record_chunk,
}
use vldb_controller.Spool.Pieces.{IsChunking, AllFull, full-IsChunking, last-IsChunking}
use vldb_controller.Spool.Invariant.{
  IsAppend, IsRecorded, IsSpooled, IsDrained, Holds, Holds-and_then, rebuffer, emit_full-IsDrained,
  record_chunk-IsRecorded,
}

-- The buffer grows by what is written.
buffered :
    (size : ℕ) (input buf : List ℕ) (w : ControllerStreamingTempFileWriter)
    → IsSpooled size input w
    → IsSpooled size (input ++ buf) (record w { pending = w.pending ++ buf })
buffered size input buf w h = record {
  pieces = h.pieces;
  recorded = rebuffer h.pieces w (w.pending ++ buf) h.recorded;
  full = h.full;
  all = sym (append_assoc w.file w.pending buf) ∙ ap (λ r. r ++ buf) h.all;
  target = h.target;
  sized = h.sized;
}

module _ (write_all : List ℕ → List ℕ → Except String (List ℕ)) (appends : IsAppend write_all)
    (size : ℕ) where
  -- One call of `write` keeps the spool in order: full chunks go to the file, less than one waits.
  write-IsDrained :
      (input buf : List ℕ) (w : ControllerStreamingTempFileWriter)
      → length (input ++ buf) ≤ u64_max
      → IsDrained size input w
      → Holds (IsDrained size (input ++ buf)) (write write_all buf w)
  unfolding write emit_full_chunks
  write-IsDrained input [] w small h = rw (append_nil input) h
  write-IsDrained input (b ∷ bs) w small h =
      emit_full-IsDrained write_all appends size (input ++ (b ∷ bs)) small
        (length (w.pending ++ (b ∷ bs))) _ (omega arith) (buffered size input (b ∷ bs) w h.0)

  pub write_each-IsDrained :
      (input : List ℕ) (bufs : List (List ℕ)) (w : ControllerStreamingTempFileWriter)
      → length (input ++ concat bufs) ≤ u64_max
      → IsDrained size input w
      → Holds (IsDrained size (input ++ concat bufs)) (write_each write_all bufs w)
  unfolding write_each
  write_each-IsDrained input [] w small h = rw (append_nil input) h
  write_each-IsDrained input (buf ∷ rest) w small h =
      subst
        (λ d.
          Holds (IsDrained size d) (and_then (write write_all buf w) (write_each write_all rest)))
        (append_assoc input buf (concat rest))
        (Holds-and_then (IsDrained size (input ++ buf))
          (IsDrained size ((input ++ buf) ++ concat rest)) (write write_all buf w)
          (write_each write_all rest)
          (write-IsDrained input buf w
            (omega (
              arith,
              length-append (input ++ buf) (concat rest),
              ap length (append_assoc input buf (concat rest)),
              small,
            ))
            h)
          (λ v k.
            write_each-IsDrained (input ++ buf) rest v
              (omega (arith, ap length (append_assoc input buf (concat rest)), small)) k))

-- All of the input is in the file, and the pieces are its chunks.
pub record IsWritten (size : ℕ) (input : List ℕ) (writer : ControllerStreamingTempFileWriter)
    : Type 0 where
  pub pieces : List (List ℕ)
  pub recorded : IsRecorded pieces writer
  pub chunking : IsChunking size pieces
  pub file : writer.file ≡ input

module _ (write_all : List ℕ → List ℕ → Except String (List ℕ)) (appends : IsAppend write_all)
    (size : ℕ) (input : List ℕ) (small : length input ≤ u64_max) where
  -- The rest of the buffer is the last chunk.
  pub emit_remaining-IsWritten :
      (w : ControllerStreamingTempFileWriter)
      → IsDrained size input w
      → Holds (IsWritten size input) (emit_remaining write_all w)
  unfolding emit_remaining write_chunk record_chunk
  emit_remaining-IsWritten w h = go w.pending refl
    where
      go : (p : List ℕ) → w.pending ≡ p → Holds (IsWritten size input) (emit_remaining write_all w)
      go [] e = rw e (record {
        pieces = h.0.pieces;
        recorded = rebuffer h.0.pieces w [] h.0.recorded;
        chunking =
            full-IsChunking size h.0.pieces (omega (arith, h.0.target, h.0.sized))
              (subst (λ t. AllFull t h.0.pieces) h.0.sized h.0.full);
        file = sym (append_nil w.file) ∙ ap (λ r. w.file ++ r) (sym e) ∙ h.0.all;
      })
      go (b ∷ bs) e = rw e (last (write_all w.file (b ∷ bs)) refl)
        where
          last :
              (r : Except String (List ℕ))
              → write_all w.file (b ∷ bs) ≡ r
              → Holds
                  (IsWritten size input)
                  (write_chunk write_all (b ∷ bs) (record w { pending = [] }))
          last (failure x) f = rw (f, write_chunk) tt
          last (success after) f =
              rw (f, write_chunk, appends w.file (b ∷ bs) after f)
                (record {
                  pieces = h.0.pieces ++ ((b ∷ bs) ∷ []);
                  recorded =
                      record_chunk-IsRecorded h.0.pieces (b ∷ bs) (record w { pending = [] })
                        (omega arith)
                        (omega (
                          arith,
                          small,
                          ap length h.0.all,
                          length-append w.file w.pending,
                          ap length e,
                        ))
                        (rebuffer h.0.pieces w [] h.0.recorded);
                  chunking =
                      last-IsChunking size h.0.pieces (b ∷ bs)
                        (subst (λ t. AllFull t h.0.pieces) h.0.sized h.0.full) (omega arith)
                        (omega (arith, h.1, h.0.sized, ap length e));
                  file = ap (λ r. w.file ++ r) (sym e) ∙ h.0.all;
                })
