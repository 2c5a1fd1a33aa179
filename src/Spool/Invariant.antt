-- ===== src/Spool/Invariant.antt =====
-- What the spool writer keeps: the file and the descriptors agree, and nothing that was written is lost.
use vldb_controller.Base.{
  ℕ, zero, suc, ◌+◌, ◌≤◌, ◌<◌, ◌≡◌, refl, ap, ap₂, sym, ◌∙◌, Bool, true, false, none, List, [], ◌∷◌,
  ◌++◌, length, arith, leb, String, leb→le, leb-false→lt, lt→leb-false,
}
use vldb_controller.Base.Lists.{
  take, drop, concat, length-append, append_nil, append_assoc, concat-append, take-append-drop,
  length-take, length-drop,
}
use vldb_controller.Base.Word.{saturating_add, u64_max}
use vldb_controller.Base.Except.{Except, success, failure}
use vldb_controller.Spool.Handle.{register_chunk}
use vldb_controller.Spool.Writer.{
  ControllerStreamingTempFileWriter, Step, and_then, record_chunk, write_chunk, emit_first,
  emit_full_within,
}
use vldb_controller.Spool.Pieces.{
  descriptors_from, AllFull, descriptors_from-append, AllFull-append,
}

-- On success the chunk is at the end of the file.
abbrev pub IsAppend : (List ℕ → List ℕ → Except String (List ℕ)) → Type 0
IsAppend write_all =
    (file chunk after : List ℕ) → write_all file chunk ≡ success after → after ≡ file ++ chunk

-- The file consists of the pieces, and the writer and its readers know where they are.
pub record IsRecorded (pieces : List (List ℕ)) (writer : ControllerStreamingTempFileWriter)
    : Type 0 where
  pub file_is : concat pieces ≡ writer.file
  pub described : writer.state.chunk_descriptors ≡ descriptors_from 0 pieces
  pub offset : writer.current_offset ≡ length writer.file
  pub bytes : writer.emitted_bytes ≡ length writer.file
  pub chunks : writer.emitted_chunks ≡ length pieces
  pub counted : length pieces ≤ length writer.file
  pub running : writer.state.error ≡ none

-- The record does not depend on the buffer.
pub rebuffer :
    (pieces : List (List ℕ)) (w : ControllerStreamingTempFileWriter) (pending : List ℕ)
    → IsRecorded pieces w
    → IsRecorded pieces (record w { pending = pending })
rebuffer pieces w pending h = record {
  file_is = h.file_is;
  described = h.described;
  offset = h.offset;
  bytes = h.bytes;
  chunks = h.chunks;
  counted = h.counted;
  running = h.running;
}

-- Between two calls: `input` is all that was written so far, and chunks have `size` bytes.
pub record IsSpooled (size : ℕ) (input : List ℕ) (writer : ControllerStreamingTempFileWriter)
    : Type 0 where
  pub pieces : List (List ℕ)
  pub recorded : IsRecorded pieces writer
  pub full : AllFull writer.target_chunk_size pieces
  pub all : writer.file ++ writer.pending ≡ input
  pub target : 0 < writer.target_chunk_size
  pub sized : writer.target_chunk_size ≡ size

module _ (pieces : List (List ℕ)) (chunk : List ℕ)
    (writer : ControllerStreamingTempFileWriter) where
  starts : IsRecorded pieces writer → writer.current_offset ≡ 0 + length (concat pieces)
  starts h = omega (arith, h.offset, ap length h.file_is)

  pub record_chunk-IsRecorded :
      0 < length chunk
      → length writer.file + length chunk ≤ u64_max
      → IsRecorded pieces writer
      → IsRecorded (pieces ++ (chunk ∷ [])) (record_chunk (writer.file ++ chunk) chunk writer)
  unfolding record_chunk register_chunk saturating_add
  record_chunk-IsRecorded some_bytes small h = record {
    file_is = concat-append pieces (chunk ∷ []) ∙ ap₂ (λ x y. x ++ y) h.file_is (append_nil chunk);
    described =
        ap₂ (λ ds n. ds ++ (record { offset = n; len = length chunk } ∷ [])) h.described (starts h)
        ∙ sym (descriptors_from-append 0 pieces chunk);
    offset = omega (arith, h.offset, length-append writer.file chunk);
    bytes = omega (arith, h.bytes, length-append writer.file chunk);
    chunks = omega (arith, h.chunks, h.counted, length-append pieces (chunk ∷ []));
    counted =
        omega
          (arith, h.counted, length-append pieces (chunk ∷ []), length-append writer.file chunk);
    running = h.running;
  }

-- What holds of the writer that a step leaves, if the step succeeds.
abbrev pub Holds {ℓ} : (ControllerStreamingTempFileWriter → Type ℓ) → Step → Type ℓ
Holds P (success _, writer) = P writer
Holds P (failure e, writer) = Unit {ℓ}

pub Holds-and_then {ℓ κ} :
    (P : ControllerStreamingTempFileWriter → Type ℓ)
    (Q : ControllerStreamingTempFileWriter → Type κ) (s : Step)
    (next : ControllerStreamingTempFileWriter → Step)
    → Holds P s
    → ((w : ControllerStreamingTempFileWriter) → P w → Holds Q (next w))
    → Holds Q (and_then s next)
Holds-and_then P Q (success u, writer) next h k = k writer h
Holds-and_then P Q (failure e, writer) next h k = tt

-- The input is spooled and less than one chunk of it waits.
abbrev pub IsDrained : ℕ → List ℕ → ControllerStreamingTempFileWriter → Type 0
IsDrained size input writer =
    IsSpooled size input writer × (length writer.pending < writer.target_chunk_size)

module _ (write_all : List ℕ → List ℕ → Except String (List ℕ)) (appends : IsAppend write_all)
    (size : ℕ) (input : List ℕ) (small : length input ≤ u64_max) where
  parts :
      (w : ControllerStreamingTempFileWriter)
      → IsSpooled size input w
      → length w.file + length w.pending ≡ length input
  parts w h = sym (length-append w.file w.pending) ∙ ap length h.all

  -- One chunk goes from the front of the buffer to the end of the file.
  emitted :
      (w : ControllerStreamingTempFileWriter)
      → w.target_chunk_size ≤ length w.pending
      → IsSpooled size input w
      → IsSpooled size input (
          record_chunk
            (w.file ++ take w.target_chunk_size w.pending)
            (take w.target_chunk_size w.pending)
            (record w { pending = drop w.target_chunk_size w.pending }))
  unfolding record_chunk
  emitted w enough h = record {
    pieces = h.pieces ++ (take w.target_chunk_size w.pending ∷ []);
    recorded =
        record_chunk-IsRecorded h.pieces (take w.target_chunk_size w.pending)
          (record w { pending = drop w.target_chunk_size w.pending })
          (omega (arith, length-take w.target_chunk_size w.pending enough, h.target))
          (omega (arith, length-take w.target_chunk_size w.pending enough, parts w h, small))
          (rebuffer h.pieces w (drop w.target_chunk_size w.pending) h.recorded);
    full =
        AllFull-append w.target_chunk_size h.pieces (take w.target_chunk_size w.pending) h.full
          (length-take w.target_chunk_size w.pending enough);
    all =
        append_assoc w.file (take w.target_chunk_size w.pending)
          (drop w.target_chunk_size w.pending)
        ∙ ap (λ r. w.file ++ r) (take-append-drop w.target_chunk_size w.pending)
        ∙ h.all;
    target = h.target;
    sized = h.sized;
  }

  emit_first-IsSpooled :
      (w : ControllerStreamingTempFileWriter)
      → w.target_chunk_size ≤ length w.pending
      → IsSpooled size input w
      → Holds
          (λ v. IsSpooled size input v × (length v.pending < length w.pending))
          (emit_first write_all w)
  unfolding write_chunk
  emit_first-IsSpooled w enough h = go (write_all w.file (take w.target_chunk_size w.pending)) refl
    where
      go :
          (r : Except String (List ℕ))
          → write_all w.file (take w.target_chunk_size w.pending) ≡ r
          → Holds
              (λ v. IsSpooled size input v × (length v.pending < length w.pending))
              (emit_first write_all w)
      go (success after) e =
          rw (e, write_chunk, appends w.file (take w.target_chunk_size w.pending) after e)
            (emitted w enough h, omega (arith, length-drop w.target_chunk_size w.pending, h.target))
      go (failure x) e = rw (e, write_chunk) tt

  pub emit_full-IsDrained :
      (fuel : ℕ) (w : ControllerStreamingTempFileWriter)
      → length w.pending ≤ fuel
      → IsSpooled size input w
      → Holds (IsDrained size input) (emit_full_within write_all fuel w)
  unfolding emit_full_within
  emit_full-IsDrained zero w f h =
      rw
        (
          emit_full_within,
          lt→leb-false w.target_chunk_size (length w.pending) (omega (arith, h.target)),
        )
        (h, omega (arith, h.target))
  emit_full-IsDrained (suc fuel) w f h =
      go (λ v. emit_full-IsDrained fuel v) (leb w.target_chunk_size (length w.pending)) refl
    where
      go :
          ((v : ControllerStreamingTempFileWriter)
            → length v.pending ≤ fuel
            → IsSpooled size input v
            → Holds (IsDrained size input) (emit_full_within write_all fuel v))
          → (b : Bool) → leb w.target_chunk_size (length w.pending) ≡ b
          → Holds (IsDrained size input) (elim b [
            | true ↦ and_then (emit_first write_all w) (emit_full_within write_all fuel)
            | false ↦ (success tt, w)
          ])
      go next true e =
          Holds-and_then (λ v. IsSpooled size input v × (length v.pending < length w.pending))
            (IsDrained size input) (emit_first write_all w) (emit_full_within write_all fuel)
            (emit_first-IsSpooled w (leb→le _ _ e) h) (λ v k. next v (omega (arith, k.1)) k.0)
      go next false e = (h, leb-false→lt _ _ e)
