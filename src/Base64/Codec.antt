-- ===== src/Base64/Codec.antt =====
-- ffi/src/lib.rs and client/src/client.rs: the base64 encoder and the two decoders.
use Prim.Native.Nat.{bit_and, bit_or}
use Prim.Native.Char.{code}
use vldb_controller.Base.{
  ℕ, zero, suc, ◌+◌, ◌-◌, ◌*◌, ◌/◌, ◌%◌, String, Bool, true, false, not, ◌&&◌, List, [], ◌∷◌, ◌++◌,
  leb, ◌==◌, length, if◌then◌else◌,
}
use vldb_controller.Base.Except.{Except, success, failure, ◌>>=◌}

-- What the two decoders refuse.
pub data Base64Error : Type 0 where
  length_not_multiple_of_4 : Base64Error
  invalid_character : ℕ → Base64Error

abbrev pub bytes_of : String → List ℕ
bytes_of String.[] = []
bytes_of (String.◌∷◌ c s) = code c ∷ bytes_of s

abbrev table : List ℕ
table = bytes_of "ABCDEFGHIJKLMNOPQRSTUVWXYZabcdefghijklmnopqrstuvwxyz0123456789+/"

-- `TABLE[i]`; the source only indexes below 64.
abbrev nth : List ℕ → ℕ → ℕ
nth [] i = 0
nth (x ∷ xs) zero = x
nth (x ∷ xs) (suc i) = nth xs i

unfoldable pub encode_char : ℕ → ℕ
encode_char i = nth table i

-- `<<` of a byte, whose high bits are lost.
abbrev pub shl8 : ℕ → ℕ → ℕ
shl8 x k = x * k % 256

abbrev pub padding : ℕ
padding = b'='

-- The four characters of one chunk of at most three bytes; a byte that is missing counts as 0.
abbrev encode_chunk : ℕ → ℕ → ℕ → Bool → Bool → List ℕ
encode_chunk a b c has_b has_c =
    encode_char (a / 4)
    ∷ encode_char (bit_or (shl8 (bit_and a 0x03) 16) (b / 16))
    ∷ (if has_b then encode_char (bit_or (shl8 (bit_and b 0x0f) 4) (c / 64)) else padding)
    ∷ (if has_c then encode_char (bit_and c 0x3f) else padding)
    ∷ []

unfoldable pub encode_base64 : List ℕ → List ℕ
unfolding encode_char
encode_base64 [] = []
encode_base64 (a ∷ []) = encode_chunk a 0 0 false false
encode_base64 (a ∷ b ∷ []) = encode_chunk a b 0 true false
encode_base64 (a ∷ b ∷ c ∷ rest) = encode_chunk a b c true true ++ encode_base64 rest

unfoldable pub decode_base64_char : ℕ → Except Base64Error ℕ
decode_base64_char value =
    if leb b'A' value && leb value b'Z'
    then success (value - b'A')
    else if leb b'a' value && leb value b'z'
    then success (value - b'a' + 26)
    else if leb b'0' value && leb value b'9'
    then success (value - b'0' + 52)
    else if value == b'+'
    then success 62
    else if value == b'/'
    then success 63
    else failure (invalid_character value)

abbrev pub push_if : Bool → ℕ → List ℕ
push_if true byte = byte ∷ []
push_if false byte = []

abbrev pub value_or : ℕ → ℕ → Except Base64Error ℕ
value_or default value = if value == padding then success default else decode_base64_char value

-- One chunk, as the foreign function interface decodes it: a missing character counts as 64.
unfoldable pub decode_chunk_ffi : ℕ → ℕ → ℕ → ℕ → Except Base64Error (List ℕ)
unfolding decode_base64_char
decode_chunk_ffi w x y z = do
  a ← decode_base64_char w
  b ← decode_base64_char x
  c ← value_or 64 y
  d ← value_or 64 z
  success (
      bit_or (shl8 a 4) (b / 16)
        ∷ push_if (not (c == 64)) (bit_or (shl8 (bit_and b 0x0f) 16) (c / 4))
      ++ push_if (not (d == 64)) (bit_or (shl8 (bit_and c 0x03) 64) d))

-- One chunk, as the client decodes it: a missing character counts as 0 and is remembered.
unfoldable pub decode_chunk_client : ℕ → ℕ → ℕ → ℕ → Except Base64Error (List ℕ)
unfolding decode_base64_char
decode_chunk_client w x y z = do
  a ← decode_base64_char w
  b ← decode_base64_char x
  c ← value_or 0 y
  d ← value_or 0 z
  success (
      bit_or (shl8 a 4) (b / 16)
        ∷ push_if (not (y == padding)) (bit_or (shl8 (bit_and b 0x0f) 16) (c / 4))
      ++ push_if (not (z == padding)) (bit_or (shl8 (bit_and c 0x03) 64) d))

-- The chunks of four; a text whose length is no multiple of four is refused before any is read.
unfoldable pub decode_chunks :
    (ℕ → ℕ → ℕ → ℕ → Except Base64Error (List ℕ)) → List ℕ → Except Base64Error (List ℕ)
decode_chunks chunk (w ∷ x ∷ y ∷ z ∷ rest) = do
  bytes ← chunk w x y z
  more ← decode_chunks chunk rest
  success (bytes ++ more)
decode_chunks chunk _ = success []

unfoldable pub decode_base64_ffi : List ℕ → Except Base64Error (List ℕ)
unfolding decode_chunks decode_chunk_ffi
decode_base64_ffi input =
    if length input % 4 == 0
    then decode_chunks decode_chunk_ffi input
    else failure length_not_multiple_of_4

unfoldable pub decode_base64_client : List ℕ → Except Base64Error (List ℕ)
unfolding decode_chunks decode_chunk_client
decode_base64_client input =
    if length input % 4 == 0
    then decode_chunks decode_chunk_client input
    else failure length_not_multiple_of_4
