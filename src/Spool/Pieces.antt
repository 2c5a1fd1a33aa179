-- ===== src/Spool/Pieces.antt =====
-- How the pieces of a spool file lie in it.
use mathlib.Core.Option
use vldb_controller.Base.{
  ℕ, zero, suc, ◌+◌, ◌≤◌, ◌<◌, ◌≡◌, refl, ap, ◌∙◌, some, List, [], ◌∷◌, ◌++◌, length, arith,
}
use vldb_controller.Base.Lists.{
  take, drop, get_elem?, concat, length-append, append_assoc, take-drop-append,
}
use vldb_controller.Spool.Handle.{ChunkDescriptor}

-- The descriptors of pieces that lie one after another from an offset on.
abbrev pub descriptors_from : ℕ → List (List ℕ) → List ChunkDescriptor
descriptors_from offset [] = []
descriptors_from offset (p ∷ ps) =
    record { offset = offset; len = length p } ∷ descriptors_from (offset + length p) ps

-- All pieces but the last have the target size, and the last is not empty and no longer.
abbrev pub IsChunking : ℕ → List (List ℕ) → Type 0
IsChunking target [] = Unit
IsChunking target (p ∷ []) = (0 < length p) × (length p ≤ target)
IsChunking target (p ∷ q ∷ rest) = (length p ≡ target) × IsChunking target (q ∷ rest)

-- All pieces have the target size.
abbrev pub AllFull : ℕ → List (List ℕ) → Type 0
AllFull target [] = Unit
AllFull target (p ∷ ps) = (length p ≡ target) × AllFull target ps

pub descriptors_from-append :
    (o : ℕ) (ps : List (List ℕ)) (p : List ℕ)
    → descriptors_from o (ps ++ (p ∷ []))
      ≡ descriptors_from o ps ++ (record { offset = o + length (concat ps); len = length p } ∷ [])
descriptors_from-append o [] p = ap (λ n. record { offset = n; len = length p } ∷ []) (omega arith)
descriptors_from-append o (q ∷ ps) p =
    ap (λ r. record { offset = o; len = length q } ∷ r)
      (descriptors_from-append (o + length q) ps p
        ∙ ap
            (λ n.
              descriptors_from (o + length q) ps ++ (record { offset = n; len = length p } ∷ []))
            (omega (arith, length-append q (concat ps))))

pub AllFull-append :
    (t : ℕ) (ps : List (List ℕ)) (p : List ℕ)
    → AllFull t ps
    → length p ≡ t
    → AllFull t (ps ++ (p ∷ []))
AllFull-append t [] p h e = (e, tt)
AllFull-append t (q ∷ ps) p h e = (h.0, AllFull-append t ps p h.1 e)

pub full-IsChunking : (t : ℕ) (ps : List (List ℕ)) → 0 < t → AllFull t ps → IsChunking t ps
full-IsChunking t [] z h = tt
full-IsChunking t (p ∷ []) z h = (omega (arith, h.0), omega (arith, h.0))
full-IsChunking t (p ∷ q ∷ rest) z h = (h.0, full-IsChunking t (q ∷ rest) z h.1)

pub last-IsChunking :
    (t : ℕ) (ps : List (List ℕ)) (p : List ℕ)
    → AllFull t ps
    → 0 < length p
    → length p ≤ t
    → IsChunking t (ps ++ (p ∷ []))
last-IsChunking t [] p h a b = (a, b)
last-IsChunking t (q ∷ []) p h a b = (h.0, (a, b))
last-IsChunking t (q ∷ r ∷ rest) p h a b = (h.0, last-IsChunking t (r ∷ rest) p h.1 a b)

-- What a descriptor says of its piece.
abbrev pub part : ChunkDescriptor → List ℕ → List ℕ
part d file = take d.len (drop d.offset file)

pub part_at :
    (before : List ℕ) (ps : List (List ℕ)) (i : ℕ)
    → Option.map
        (λ d. part d (before ++ concat ps))
        (get_elem? (descriptors_from (length before) ps) i)
      ≡ get_elem? ps i
part_at before [] i = refl
part_at before (p ∷ ps) zero = ap some (take-drop-append before p (concat ps))
part_at before (p ∷ ps) (suc i) =
    rw (← append_assoc before p (concat ps), ← length-append before p) (part_at (before ++ p) ps i)
