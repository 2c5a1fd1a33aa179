-- ===== src/Base64/Agree.antt =====
-- ffi/src/lib.rs and client/src/client.rs: the two base64 decoders are the same function.
use vldb_controller.Base.{
  ℕ, ◌≡◌, refl, true, false, List, [], ◌∷◌, ◌==◌, arith, inl, inr, Bool-cases,
}
use vldb_controller.Base.Except.{Except, success, failure, ◌>>=◌}
use vldb_controller.Base64.Codec.{
  Base64Error, padding, value_or, decode_base64_char, decode_chunk_client, decode_chunk_ffi,
  decode_chunks, decode_base64_client, decode_base64_ffi,
}

-- No character stands for 64.
value-64 : (c v : ℕ) → decode_base64_char c ≡ success v → (v == 64) ≡ false
unfolding decode_base64_char
value-64 c v e = ground arith

bind_same :
    {A B : Type 0} (r : Except Base64Error A) (f g : A → Except Base64Error B)
    → ((a : A) → f a ≡ g a)
    → (r >>= f) ≡ (r >>= g)
bind_same (success a) f g h = h a
bind_same (failure e) f g h = refl

-- Two continuations that agree on what a missing character counts as, and on every character, agree.
after_value :
    (z : ℕ) (f g : ℕ → Except Base64Error (List ℕ))
    → ((z == padding) ≡ true → f 64 ≡ g 0)
    → ((v : ℕ) → (z == padding) ≡ false → (v == 64) ≡ false → f v ≡ g v)
    → (value_or 64 z >>= f) ≡ (value_or 0 z >>= g)
after_value z f g missing given = elim (Bool-cases (z == padding)) [
  | inl e ↦ rw e (missing e)
  | inr e ↦ rw e (go (decode_base64_char z) refl e)
]
  where
    go :
        (r : Except Base64Error ℕ)
        → decode_base64_char z ≡ r
        → (z == padding) ≡ false
        → (r >>= f) ≡ (r >>= g)
    go (success v) d e = given v e (value-64 z v d)
    go (failure x) d e = refl

chunks_agree : (w x y z : ℕ) → decode_chunk_ffi w x y z ≡ decode_chunk_client w x y z
unfolding decode_chunk_ffi decode_chunk_client
chunks_agree w x y z = bind_same (decode_base64_char w) _ _ λ a.
    bind_same (decode_base64_char x) _ _ λ b.
      after_value y _ _ (λ e. after_value z _ _ (λ f. rw (e, f) refl) (λ v f n. rw (e, f, n) refl))
        (λ c e m. after_value z _ _ (λ f. rw (e, f, m) refl) (λ v f n. rw (e, f, n, m) refl))

decoders_agree :
    (input : List ℕ)
    → decode_chunks decode_chunk_ffi input ≡ decode_chunks decode_chunk_client input
unfolding decode_chunks
decoders_agree (w ∷ x ∷ y ∷ z ∷ rest) = rw (chunks_agree w x y z, decoders_agree rest) refl
decoders_agree [] = refl
decoders_agree (w ∷ []) = refl
decoders_agree (w ∷ x ∷ []) = refl
decoders_agree (w ∷ x ∷ y ∷ []) = refl

-- The decoder of the foreign function interface and that of the client give the same bytes, or the same
-- refusal, for every text.
pub ffi-client : (input : List ℕ) → decode_base64_ffi input ≡ decode_base64_client input
unfolding decode_base64_ffi decode_base64_client
ffi-client input = rw (decoders_agree input) refl
