-- ===== src/Tx/Bytes.antt =====
-- What src/noxipher/tx/scale.py writes is bytes.
use noxipher.Prelude.{
  ℕ, zero, suc, ◌+◌, ◌-◌, ◌*◌, ◌/◌, ◌%◌, ◌^◌, ◌<◌, ◌≡◌, arith, inl, inr, ◌&&◌, Bool-cases, List, [],
  ◌∷◌, ◌++◌, length, All, All-append, IsByte, ltb, leb, ◌==◌, bit_or, subst,
}
use noxipher.Prelude.Digits.{le_bytes, le_bytes-IsByte}
use noxipher.Core.Exceptions.{Result, ok, ◌>>=◌, >>=-eq-ok}
use noxipher.Tx.Compact.{
  pack, byte, big_bytes, big_mode, encode_scale_int, serialize_bytes, utf8_char, encode_text,
  tagged_serialize,
}
use noxipher.Tx.Structures.{serialize_each, serialize_vec}

abbrev pub AreBytes : List ℕ → Type 0
AreBytes = All IsByte

-- A code point of a text.
abbrev pub IsText : List ℕ → Type 0
IsText = All (λ c. c < 0x110000)

-- What is written of a value is bytes.
abbrev pub WritesBytes {ℓ} : {A : Type ℓ} → (A → Result (List ℕ)) → A → Type 0
WritesBytes write a = (bs : List ℕ) → write a ≡ ok bs → AreBytes bs

-- The bytes of a chain's end.
pub ends_with :
    (xs bs : List ℕ) → AreBytes xs → ◌≡◌ {A = Result (List ℕ)} (ok xs) (ok bs) → AreBytes bs
ends_with xs bs are h = let e : xs ≡ bs = cc h in subst AreBytes e are

pub join : (xs ys : List ℕ) → AreBytes xs → AreBytes ys → AreBytes (xs ++ ys)
join xs ys = All-append IsByte xs ys

pub pack-WritesBytes : (n v : ℕ) → WritesBytes (pack n) v
unfolding pack
pack-WritesBytes n v bs h = elim (Bool-cases (ltb v (256 ^ n))) [
  | inl e ↦ ends_with (le_bytes n v) bs (le_bytes-IsByte n v) (rw e at h)
  | inr e ↦ cc (rw e at h)
]

pub byte-WritesBytes : (v : ℕ) → WritesBytes byte v
unfolding byte
byte-WritesBytes v bs h = elim (Bool-cases (ltb v 256)) [
  | inl e ↦ ends_with (v ∷ []) bs (ground (arith, e), tt) (rw e at h)
  | inr e ↦ cc (rw e at h)
]

big_bytes-AreBytes : (fuel v : ℕ) → AreBytes (big_bytes fuel v)
unfolding big_bytes
big_bytes-AreBytes zero v = tt
big_bytes-AreBytes (suc fuel) v = elim (Bool-cases (v == 0)) [
  | inl e ↦ rw e tt
  | inr e ↦ rw e (omega arith, big_bytes-AreBytes fuel (v / 256))
]

big_mode-WritesBytes : (out : List ℕ) → AreBytes out → WritesBytes big_mode out
unfolding big_mode
big_mode-WritesBytes out are bs h =
    let (mode, written, h1) = >>=-eq-ok (byte (bit_or ((length out - 4) * 4) 3)) _ h in
    ends_with (mode ++ out) bs (join mode out (byte-WritesBytes _ mode written) are) h1

scale_int-WritesBytes : (v : ℕ) → WritesBytes encode_scale_int v
unfolding encode_scale_int
scale_int-WritesBytes v bs h = elim (Bool-cases (ltb v 64)) [
  | inl a ↦ byte-WritesBytes (v * 4) bs (rw a at h)
  | inr a ↦ elim (Bool-cases (ltb v 16_384)) [
    | inl b ↦ pack-WritesBytes 2 (bit_or (v * 4) 1) bs (rw (a, b) at h)
    | inr b ↦ elim (Bool-cases (ltb v 1_073_741_824)) [
      | inl c ↦ pack-WritesBytes 4 (bit_or (v * 4) 2) bs (rw (a, b, c) at h)
      | inr c ↦ big_mode-WritesBytes (big_bytes v v) (big_bytes-AreBytes v v) bs (rw (a, b, c) at h)
    ]
  ]
]

-- Two writings, one behind the other.
chain-AreBytes {ℓ} :
    {A : Type ℓ} (write : A → Result (List ℕ)) (a : A) (rest : List ℕ) (bs : List ℕ)
    → WritesBytes write a
    → AreBytes rest
    → (write a >>= λ front. ok (front ++ rest)) ≡ ok bs
    → AreBytes bs
chain-AreBytes write a rest bs writes are h =
    let (front, written, h1) = >>=-eq-ok (write a) (λ front. ok (front ++ rest)) h in
    ends_with (front ++ rest) bs (join front rest (writes front written) are) h1

pub serialize_bytes-WritesBytes : (b : List ℕ) → AreBytes b → WritesBytes serialize_bytes b
unfolding serialize_bytes
serialize_bytes-WritesBytes b are bs h =
    chain-AreBytes encode_scale_int (length b) b bs (scale_int-WritesBytes (length b)) are h

utf8_char-WritesBytes : (c : ℕ) → c < 0x110000 → WritesBytes utf8_char c
unfolding utf8_char
utf8_char-WritesBytes c point bs h = elim (Bool-cases (ltb c 0x80)) [
  | inl a ↦ ends_with (c ∷ []) bs (ground (arith, a), tt) (rw a at h)
  | inr a ↦ elim (Bool-cases (ltb c 0x800)) [
    | inl b ↦
        ends_with ((0xC0 + c / 64) ∷ (0x80 + c % 64) ∷ []) bs (ground (arith, b), (omega arith, tt))
          (rw (a, b) at h)
    | inr b ↦ elim (Bool-cases (leb 0xD800 c && ltb c 0xE000)) [
      | inl s ↦ cc (rw (a, b, s) at h)
      | inr s ↦ elim (Bool-cases (ltb c 0x10000)) [
        | inl d ↦
            ends_with ((0xE0 + c / 4096) ∷ (0x80 + c / 64 % 64) ∷ (0x80 + c % 64) ∷ []) bs
              (ground (arith, d), (omega arith, (omega arith, tt))) (rw (a, b, s, d) at h)
        | inr d ↦
            ends_with
              ((0xF0 + c / 262_144)
                ∷ (0x80 + c / 4096 % 64)
                ∷ (0x80 + c / 64 % 64)
                ∷ (0x80 + c % 64)
                ∷ [])
              bs (omega (arith, point), (omega arith, (omega arith, (omega arith, tt))))
              (rw (a, b, s, d) at h)
      ]
    ]
  ]
]

pub encode_text-WritesBytes : (text : List ℕ) → IsText text → WritesBytes encode_text text
unfolding encode_text
encode_text-WritesBytes [] points bs h = ends_with [] bs tt h
encode_text-WritesBytes (c ∷ cs) (point, points) bs h =
    let (front, first, h1) = >>=-eq-ok (utf8_char c) _ h in
    let (rest, others, h2) = >>=-eq-ok (encode_text cs) _ h1 in
    ends_with (front ++ rest) bs
      (join front rest (utf8_char-WritesBytes c point front first)
        (encode_text-WritesBytes cs points rest others))
      h2

pub tagged-WritesBytes :
    (tag payload : List ℕ)
    → IsText tag
    → AreBytes payload
    → WritesBytes (tagged_serialize tag) payload
unfolding tagged_serialize
tagged-WritesBytes tag payload points are bs h =
    let (tag_bytes, e, h1) = >>=-eq-ok (encode_text tag) _ h in
    let (prefix, f, h2) = >>=-eq-ok (encode_scale_int (length tag_bytes)) _ h1 in
    ends_with (prefix ++ tag_bytes ++ payload) bs
      (join (prefix ++ tag_bytes) payload
        (join prefix tag_bytes (scale_int-WritesBytes _ prefix f)
          (encode_text-WritesBytes tag points tag_bytes e))
        are)
      h2

module _ {ℓ} {A : Type ℓ} (write : A → Result (List ℕ)) where
  each-WritesBytes :
      (items : List A) → All (WritesBytes write) items → WritesBytes (serialize_each write) items
  unfolding serialize_each
  each-WritesBytes [] all bs h = ends_with [] bs tt h
  each-WritesBytes (item ∷ items) (writes, all) bs h =
      let (front, first, h1) = >>=-eq-ok (write item) _ h in
      let (rest, others, h2) = >>=-eq-ok (serialize_each write items) _ h1 in
      ends_with (front ++ rest) bs
        (join front rest (writes front first) (each-WritesBytes items all rest others)) h2

  pub vec-WritesBytes :
      (items : List A) → All (WritesBytes write) items → WritesBytes (serialize_vec write) items
  unfolding serialize_vec
  vec-WritesBytes items all bs h =
      let (count, e, h1) = >>=-eq-ok (encode_scale_int (length items)) _ h in
      let (payload, f, h2) = >>=-eq-ok (serialize_each write items) _ h1 in
      ends_with (count ++ payload) bs
        (join count payload (scale_int-WritesBytes _ count e)
          (each-WritesBytes items all payload f))
        h2
