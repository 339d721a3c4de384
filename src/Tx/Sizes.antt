-- ===== src/Tx/Sizes.antt =====
-- How many bytes src/noxipher/tx/scale.py writes at most.
use noxipher.Prelude.{
  ℕ, ◌+◌, ◌-◌, ◌*◌, ◌/◌, ◌%◌, ◌^◌, ◌≤◌, ◌<◌, ◌≡◌, refl, ap, arith, inl, inr, Bool-cases, List, [],
  ◌∷◌, ◌++◌, length, length-append, All, ltb, bit_or,
}
use noxipher.Prelude.Bits.{bit_or_shifted}
use noxipher.Prelude.Digits.{le_bytes, length-le_bytes}
use noxipher.Core.Exceptions.{Result, ok, >>=-eq-ok}
use noxipher.Tx.Compact.{
  pack, byte, big_bytes, big_mode, encode_scale_int, serialize_u32, serialize_u128,
}
use noxipher.Tx.Structures.{
  UtxoSpend, UtxoOutput, serialize_utxo_spend, serialize_utxo_output, serialize_each, serialize_vec,
}

-- What is written of a value has at most so many bytes.
abbrev pub Fits {ℓ} : {A : Type ℓ} → ℕ → (A → Result (List ℕ)) → A → Type 0
Fits n write a = (bs : List ℕ) → write a ≡ ok bs → length bs ≤ n

pub pack-Fits : (n v : ℕ) → Fits n (pack n) v
unfolding pack
pack-Fits n v bs h = elim (Bool-cases (ltb v (256 ^ n))) [
  | inl e ↦
      let same : le_bytes n v ≡ bs = cc (rw e at h) in
      omega (arith, ap length same, length-le_bytes n v)
  | inr e ↦ cc (rw e at h)
]

byte-eq-ok : (v : ℕ) (bs : List ℕ) → byte v ≡ ok bs → (v < 256) × (length bs ≡ 1)
unfolding byte
byte-eq-ok v bs h = elim (Bool-cases (ltb v 256)) [
  | inl e ↦ let same : v ∷ [] ≡ bs = cc (rw e at h) in (ground (arith, e), rw (← same) refl)
  | inr e ↦ cc (rw e at h)
]

big_mode-Fits : (out : List ℕ) → Fits 68 big_mode out
unfolding big_mode
big_mode-Fits out bs h =
    let (mode, written, h1) = >>=-eq-ok (byte (bit_or ((length out - 4) * 4) 3)) _ h in
    let (small, one) = byte-eq-ok (bit_or ((length out - 4) * 4) 3) mode written in
    let value : bit_or ((length out - 4) * 4) 3 ≡ (length out - 4) * 4 + 3 =
      bit_or_shifted 2 (length out - 4) 3 (omega arith) in
    let same : mode ++ out ≡ bs = cc h1 in
    omega (arith, small, value, one, ap length same, length-append mode out)

pub encode_scale_int-Fits : (v : ℕ) → Fits 68 encode_scale_int v
unfolding encode_scale_int
encode_scale_int-Fits v bs h = elim (Bool-cases (ltb v 64)) [
  | inl a ↦ omega (arith, (byte-eq-ok (v * 4) bs (rw a at h)).1)
  | inr a ↦ elim (Bool-cases (ltb v 16_384)) [
    | inl b ↦ omega (arith, pack-Fits 2 (bit_or (v * 4) 1) bs (rw (a, b) at h))
    | inr b ↦ elim (Bool-cases (ltb v 1_073_741_824)) [
      | inl c ↦ omega (arith, pack-Fits 4 (bit_or (v * 4) 2) bs (rw (a, b, c) at h))
      | inr c ↦ big_mode-Fits (big_bytes v v) bs (rw (a, b, c) at h)
    ]
  ]
]

module _ {ℓ} {A : Type ℓ} (n : ℕ) (write : A → Result (List ℕ)) where
  serialize_each-Fits :
      (items : List A)
      → All (Fits n write) items
      → Fits (n * length items) (serialize_each write) items
  unfolding serialize_each
  serialize_each-Fits [] fits bs h = let same : [] ≡ bs = cc h in rw (← same) (omega arith)
  serialize_each-Fits (item ∷ items) (fit, fits) bs h =
      let (front, first, h1) = >>=-eq-ok (write item) _ h in
      let (rest, others, h2) = >>=-eq-ok (serialize_each write items) _ h1 in
      let same : front ++ rest ≡ bs = cc h2 in
      let before = fit front first in
      let after = serialize_each-Fits items fits rest others in
      grind (arith, ap length same, length-append front rest, before, after)

  pub serialize_vec-Fits :
      (items : List A)
      → All (Fits n write) items
      → Fits (68 + n * length items) (serialize_vec write) items
  unfolding serialize_vec
  serialize_vec-Fits items fits bs h =
      let (count, counted, h1) = >>=-eq-ok (encode_scale_int (length items)) _ h in
      let (payload, written, h2) = >>=-eq-ok (serialize_each write items) _ h1 in
      let same : count ++ payload ≡ bs = cc h2 in
      let before = encode_scale_int-Fits (length items) count counted in
      let after = serialize_each-Fits items fits payload written in
      omega (arith, ap length same, length-append count payload, before, after)

pub utxo_spend-Fits :
    (u : UtxoSpend)
    → length u.owner ≡ 32
    → length u.intent_hash ≡ 32
    → Fits 85 serialize_utxo_spend u
unfolding serialize_utxo_spend serialize_u128 serialize_u32
utxo_spend-Fits u owned hashed bs h =
    let (value, e, h1) = >>=-eq-ok (serialize_u128 u.value) _ h in
    let (low, el, e1) = >>=-eq-ok (pack 8 (u.value % 2 ^ 64)) _ e in
    let (high, eh, e2) = >>=-eq-ok (pack 8 (u.value / 2 ^ 64)) _ e1 in
    let (kind, ek, h2) = >>=-eq-ok (byte u.type_) _ h1 in
    let (output_no, eo, h3) = >>=-eq-ok (pack 4 u.output_no) _ h2 in
    let same : value ++ u.owner ++ kind ++ u.intent_hash ++ output_no ≡ bs = cc h3 in
    let joined : low ++ high ≡ value = cc e2 in
    omega (
      arith,
      owned,
      hashed,
      ap length same,
      ap length joined,
      length-append low high,
      length-append value u.owner,
      length-append (value ++ u.owner) kind,
      length-append (value ++ u.owner ++ kind) u.intent_hash,
      length-append (value ++ u.owner ++ kind ++ u.intent_hash) output_no,
      pack-Fits 8 (u.value % 2 ^ 64) low el,
      pack-Fits 8 (u.value / 2 ^ 64) high eh,
      (byte-eq-ok u.type_ kind ek).1,
      pack-Fits 4 u.output_no output_no eo,
    )

pub utxo_output-Fits : (u : UtxoOutput) → length u.owner ≡ 32 → Fits 49 serialize_utxo_output u
unfolding serialize_utxo_output serialize_u128
utxo_output-Fits u owned bs h =
    let (value, e, h1) = >>=-eq-ok (serialize_u128 u.value) _ h in
    let (low, el, e1) = >>=-eq-ok (pack 8 (u.value % 2 ^ 64)) _ e in
    let (high, eh, e2) = >>=-eq-ok (pack 8 (u.value / 2 ^ 64)) _ e1 in
    let (kind, ek, h2) = >>=-eq-ok (byte u.type_) _ h1 in
    let same : value ++ u.owner ++ kind ≡ bs = cc h2 in
    let joined : low ++ high ≡ value = cc e2 in
    omega (
      arith,
      owned,
      ap length same,
      ap length joined,
      length-append low high,
      length-append value u.owner,
      length-append (value ++ u.owner) kind,
      pack-Fits 8 (u.value % 2 ^ 64) low el,
      pack-Fits 8 (u.value / 2 ^ 64) high eh,
      (byte-eq-ok u.type_ kind ek).1,
    )
