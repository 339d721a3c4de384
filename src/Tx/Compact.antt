-- ===== src/Tx/Compact.antt =====
-- The base encodings of src/noxipher/tx/scale.py: compact integers, words of fixed width, byte
-- strings with their length, and tags. A raise of struct.pack or bytes() is an `err`.
use noxipher.Prelude.{
  ℕ, zero, suc, ◌+◌, ◌-◌, ◌*◌, ◌/◌, ◌%◌, ◌^◌, ◌&&◌, List, [], ◌∷◌, ◌++◌, length, ltb, leb, ◌==◌,
  if◌then◌else◌, bit_or,
}
use noxipher.Prelude.Digits.{le_bytes}
use noxipher.Core.Exceptions.{
  Result, ok, err, ◌>>=◌, value_error, struct_error, unicode_encode_error,
}

-- `struct.pack` of one unsigned word of `n` bytes, little-endian.
unfoldable pub pack : ℕ → ℕ → Result (List ℕ)
pack n v = if ltb v (256 ^ n) then ok (le_bytes n v) else err struct_error

-- `bytes([v])`.
unfoldable pub byte : ℕ → Result (List ℕ)
byte v = if ltb v 256 then ok (v ∷ []) else err value_error

-- `while val > 0: out.append(val & 0xFF); val >>= 8`, on fuel.
unfoldable pub big_bytes : ℕ → ℕ → List ℕ
big_bytes zero v = []
big_bytes (suc fuel) v =
    let rest = big_bytes fuel (v / 256) in if v == 0 then [] else v % 256 ∷ rest

-- `bytes([(len(out) - 4) << 2 | 3]) + out`, for four bytes or more.
unfoldable pub big_mode : List ℕ → Result (List ℕ)
big_mode out = do mode ← byte (bit_or ((length out - 4) * 4) 3); ok (mode ++ out)

-- The value is fuel enough for its bytes: each round divides it by 256.
unfoldable pub encode_scale_int : ℕ → Result (List ℕ)
encode_scale_int v =
    if ltb v 64
    then byte (v * 4)
    else if ltb v 16_384
    then pack 2 (bit_or (v * 4) 1)
    else if ltb v 1_073_741_824
    then pack 4 (bit_or (v * 4) 2)
    else big_mode (big_bytes v v)

unfoldable pub serialize_u32 : ℕ → Result (List ℕ)
serialize_u32 v = pack 4 v

-- Two words, the low one first: `v & 0xFFFFFFFFFFFFFFFF` and `v >> 64`.
unfoldable pub serialize_u128 : ℕ → Result (List ℕ)
serialize_u128 v = do low ← pack 8 (v % 2 ^ 64); high ← pack 8 (v / 2 ^ 64); ok (low ++ high)

unfoldable pub serialize_bytes : List ℕ → Result (List ℕ)
serialize_bytes data_ = do prefix ← encode_scale_int (length data_); ok (prefix ++ data_)

-- `str.encode()`: UTF-8, which has no surrogates.
unfoldable pub utf8_char : ℕ → Result (List ℕ)
utf8_char c =
    if ltb c 0x80
    then ok (c ∷ [])
    else if ltb c 0x800
    then ok ((0xC0 + c / 64) ∷ (0x80 + c % 64) ∷ [])
    else if leb 0xD800 c && ltb c 0xE000
    then err unicode_encode_error
    else if ltb c 0x10000
    then ok ((0xE0 + c / 4096) ∷ (0x80 + c / 64 % 64) ∷ (0x80 + c % 64) ∷ [])
    else ok (
        (0xF0 + c / 262_144) ∷ (0x80 + c / 4096 % 64) ∷ (0x80 + c / 64 % 64) ∷ (0x80 + c % 64) ∷ [])

unfoldable pub encode_text : List ℕ → Result (List ℕ)
encode_text [] = ok []
encode_text (c ∷ cs) = do front ← utf8_char c; rest ← encode_text cs; ok (front ++ rest)

unfoldable pub tagged_serialize : List ℕ → List ℕ → Result (List ℕ)
tagged_serialize tag payload = do
  tag_bytes ← encode_text tag
  prefix ← encode_scale_int (length tag_bytes)
  ok (prefix ++ tag_bytes ++ payload)
