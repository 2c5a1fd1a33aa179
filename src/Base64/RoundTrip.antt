-- ===== src/Base64/RoundTrip.antt =====
-- ffi/src/lib.rs and client/src/client.rs: what is encoded is decoded again.
use Prim.Native.Nat.{bit_and, bit_or}
use vldb_controller.Base.{
  ℕ, ◌+◌, ◌*◌, ◌/◌, ◌%◌, ◌<◌, ◌≡◌, refl, ap, ap₂, ◌∙◌, List, [], ◌∷◌, length, arith,
}
use vldb_controller.Base.Except.{success}
use vldb_controller.Base64.Codec.{
  shl8, padding, encode_char, encode_base64, decode_chunk_client, decode_chunks,
  decode_base64_client,
}
use vldb_controller.Base64.Bits.{masked, joined-4, joined-16, joined-64, decode-encode_char}

-- Every element is a byte.
abbrev pub IsBytes : List ℕ → Type 0
IsBytes [] = Unit
IsBytes (b ∷ bs) = (b < 256) × IsBytes bs

module _ (i j : ℕ) (p : i < 64) (q : j < 64) where
  first_byte : bit_or (shl8 i 4) (j / 16) ≡ i * 4 + j / 16
  first_byte = joined-4 i (j / 16) p (omega arith)

  second_byte : bit_or (shl8 (bit_and i 0x0f) 16) (j / 4) ≡ i % 16 * 16 + j / 4
  second_byte =
      rw ((masked i (omega arith)).1) (joined-16 (i % 16) (j / 4) (omega arith) (omega arith))

  third_byte : bit_or (shl8 (bit_and i 0x03) 64) j ≡ i % 4 * 64 + j
  third_byte = rw ((masked i (omega arith)).0) (joined-64 (i % 4) j (omega arith) q)

module _ (i j k l : ℕ) (p : i < 64) (q : j < 64) where
  decode_one :
      decode_chunk_client (encode_char i) (encode_char j) padding padding
      ≡ success ((i * 4 + j / 16) ∷ [])
  unfolding decode_chunk_client
  decode_one = ground (arith, decode-encode_char i p, decode-encode_char j q, first_byte i j p q)

  decode_two :
      k < 64
      → decode_chunk_client (encode_char i) (encode_char j) (encode_char k) padding
        ≡ success ((i * 4 + j / 16) ∷ (j % 16 * 16 + k / 4) ∷ [])
  unfolding decode_chunk_client
  decode_two r = ground (
    arith,
    decode-encode_char i p,
    decode-encode_char j q,
    decode-encode_char k r,
    first_byte i j p q,
    second_byte j k q r,
  )

  decode_three :
      k < 64
      → l < 64
      → decode_chunk_client (encode_char i) (encode_char j) (encode_char k) (encode_char l)
        ≡ success ((i * 4 + j / 16) ∷ (j % 16 * 16 + k / 4) ∷ (k % 4 * 64 + l) ∷ [])
  unfolding decode_chunk_client
  decode_three r s = ground (
    arith,
    decode-encode_char i p,
    decode-encode_char j q,
    decode-encode_char k r,
    decode-encode_char l s,
    first_byte i j p q,
    second_byte j k q r,
    third_byte k l r s,
  )

index_2 :
    (a b : ℕ) → a < 256 → b < 256 → bit_or (shl8 (bit_and a 0x03) 16) (b / 16) ≡ a % 4 * 16 + b / 16
index_2 a b p q = rw ((masked a p).0) (joined-16 (a % 4) (b / 16) (omega arith) (omega arith))

index_3 :
    (b c : ℕ) → b < 256 → c < 256 → bit_or (shl8 (bit_and b 0x0f) 4) (c / 64) ≡ b % 16 * 4 + c / 64
index_3 b c p q = rw ((masked b p).1) (joined-4 (b % 16) (c / 64) (omega arith) (omega arith))

chunk_1 :
    (a : ℕ)
    → a < 256
    → decode_chunk_client
        (encode_char (a / 4))
        (encode_char (bit_or (shl8 (bit_and a 0x03) 16) 0))
        padding
        padding
      ≡ success (a ∷ [])
chunk_1 a p = rw (index_2 a 0 p (omega arith)) (
    decode_one (a / 4) (a % 4 * 16 + 0 / 16) 0 0 (omega arith) (omega arith)
    ∙ ap (λ x. success (x ∷ [])) (omega arith))

chunk_2 :
    (a b : ℕ)
    → a < 256
    → b < 256
    → decode_chunk_client
        (encode_char (a / 4))
        (encode_char (bit_or (shl8 (bit_and a 0x03) 16) (b / 16)))
        (encode_char (bit_or (shl8 (bit_and b 0x0f) 4) 0))
        padding
      ≡ success (a ∷ b ∷ [])
chunk_2 a b p q =
    rw (index_2 a b p q, index_3 b 0 q (omega arith))
      (decode_two (a / 4) (a % 4 * 16 + b / 16) (b % 16 * 4 + 0 / 64) 0 (omega arith) (omega arith)
          (omega arith)
        ∙ ap₂ (λ x y. success (x ∷ y ∷ [])) (omega arith) (omega arith))

chunk_3 :
    (a b c : ℕ)
    → a < 256
    → b < 256
    → c < 256
    → decode_chunk_client
        (encode_char (a / 4))
        (encode_char (bit_or (shl8 (bit_and a 0x03) 16) (b / 16)))
        (encode_char (bit_or (shl8 (bit_and b 0x0f) 4) (c / 64)))
        (encode_char (bit_and c 0x3f))
      ≡ success (a ∷ b ∷ c ∷ [])
chunk_3 a b c p q r =
    rw (index_2 a b p q, index_3 b c q r, (masked c r).2)
      (decode_three (a / 4) (a % 4 * 16 + b / 16) (b % 16 * 4 + c / 64) (c % 64) (omega arith)
          (omega arith) (omega arith) (omega arith)
        ∙ ap₂ (λ x y. success (x ∷ y ∷ ((b % 16 * 4 + c / 64) % 4 * 64 + c % 64) ∷ []))
            (omega arith) (omega arith)
        ∙ ap (λ x. success (a ∷ b ∷ x ∷ [])) (omega arith))

pub decode_chunks-encode :
    (bs : List ℕ) → IsBytes bs → decode_chunks decode_chunk_client (encode_base64 bs) ≡ success bs
unfolding decode_chunks encode_base64
decode_chunks-encode [] h = refl
decode_chunks-encode (a ∷ []) h = rw (chunk_1 a h.0) refl
decode_chunks-encode (a ∷ b ∷ []) h = rw (chunk_2 a b h.0 h.1.0) refl
decode_chunks-encode (a ∷ b ∷ c ∷ rest) h =
    rw (chunk_3 a b c h.0 h.1.0 h.1.1.0, decode_chunks-encode rest h.1.1.1) refl

length-encode : (bs : List ℕ) → length (encode_base64 bs) ≡ (length bs + 2) / 3 * 4
unfolding encode_base64
length-encode [] = refl
length-encode (a ∷ []) = refl
length-encode (a ∷ b ∷ []) = refl
length-encode (a ∷ b ∷ c ∷ rest) = omega (arith, length-encode rest)

-- The client decodes what the foreign function interface encodes: the bytes come back, whatever their
-- number is, and four characters stand for every three bytes or fewer at the end.
pub decode-encode_base64 :
    (bs : List ℕ)
    → IsBytes bs
    → (decode_base64_client (encode_base64 bs) ≡ success bs)
      × (length (encode_base64 bs) ≡ (length bs + 2) / 3 * 4)
unfolding decode_base64_client
decode-encode_base64 bs h =
    (ground (arith, length-encode bs, decode_chunks-encode bs h), length-encode bs)
