-- ===== src/Tx/OfferRoundTrip.antt =====
-- Readers for the structures of an unshielded offer, which the source does not have, and that they
-- read back what src/noxipher/tx/scale.py writes.
use native.Mathlib.Nat.{div-add-mod}
use noxipher.Prelude.{
  ℕ, zero, suc, ◌+◌, ◌*◌, ◌/◌, ◌%◌, ◌^◌, ◌<◌, ◌≡◌, refl, arith, List, [], ◌∷◌, ◌++◌, append_assoc,
  length, All,
}
use noxipher.Core.Exceptions.{Result, ok, err, ◌>>=◌, value_error}
use noxipher.Tx.Compact.{byte, serialize_u32, serialize_u128, serialize_bytes}
use noxipher.Tx.CompactRoundTrip.{
  Reader, Reads, Reads-back, unpack, take_exact, take_exact-front, pack-Reads, byte-eq,
  decode_scale_int, encode_scale_int-Reads,
}
use noxipher.Tx.Structures.{
  UtxoSpend, UtxoOutput, UnshieldedOffer, serialize_utxo_spend, serialize_utxo_output,
  serialize_each, serialize_vec, serialize_unshielded_offer,
}

unfoldable pub decode_bytes : Reader (List ℕ)
decode_bytes bs = do (n, rest) ← decode_scale_int bs; take_exact n rest

unfoldable pub read_byte : Reader ℕ
read_byte [] = err value_error
read_byte (b ∷ bs) = ok (b, bs)

unfoldable pub read_u128 : Reader ℕ
read_u128 bs = do
  (low, bs1) ← unpack 8 bs
  (high, bs2) ← unpack 8 bs1
  ok (2 ^ 64 * high + low, bs2)

unfoldable pub read_utxo_spend : Reader UtxoSpend
read_utxo_spend bs = do
  (v, bs1) ← read_u128 bs
  (o, bs2) ← take_exact 32 bs1
  (t, bs3) ← read_byte bs2
  (h, bs4) ← take_exact 32 bs3
  (n, bs5) ← unpack 4 bs4
  ok (record { value = v; owner = o; type_ = t; intent_hash = h; output_no = n }, bs5)

unfoldable pub read_utxo_output : Reader UtxoOutput
read_utxo_output bs = do
  (v, bs1) ← read_u128 bs
  (o, bs2) ← take_exact 32 bs1
  (t, bs3) ← read_byte bs2
  ok (record { value = v; owner = o; type_ = t }, bs3)

unfoldable pub read_each {ℓ} : {A : Type ℓ} → Reader A → ℕ → Reader (List A)
read_each read zero bs = ok ([], bs)
read_each read (suc n) bs = do
  (a, bs1) ← read bs
  (as_, bs2) ← read_each read n bs1
  ok (a ∷ as_, bs2)

unfoldable pub read_vec {ℓ} : {A : Type ℓ} → Reader A → Reader (List A)
read_vec read bs = do (n, bs1) ← decode_scale_int bs; read_each read n bs1

unfoldable pub read_unshielded_offer : Reader UnshieldedOffer
read_unshielded_offer bs = do
  (i, bs1) ← read_vec read_utxo_spend bs
  (o, bs2) ← read_vec read_utxo_output bs1
  (s, bs3) ← read_vec (take_exact 64) bs2
  ok (record { inputs = i; outputs = o; signatures = s }, bs3)

-- What the types of the ledger say of the fields.
abbrev pub IsSpend : UtxoSpend → Type 0
IsSpend u =
    (u.value < 2 ^ 128)
    × (length u.owner ≡ 32)
    × (u.type_ < 256)
    × (length u.intent_hash ≡ 32)
    × (u.output_no < 2 ^ 32)

abbrev pub IsOutput : UtxoOutput → Type 0
IsOutput u = (u.value < 2 ^ 128) × (length u.owner ≡ 32) × (u.type_ < 256)

abbrev pub IsSignature : List ℕ → Type 0
IsSignature s = length s ≡ 64

-- Each list is short enough for its length to be encoded.
abbrev pub IsOffer : UnshieldedOffer → Type 0
IsOffer offer =
    (All IsSpend offer.inputs × (length offer.inputs < 256 ^ 67))
    × (All IsOutput offer.outputs × (length offer.outputs < 256 ^ 67))
    × (All IsSignature offer.signatures × (length offer.signatures < 256 ^ 67))

pub byte-Reads : (v : ℕ) → v < 256 → Reads byte read_byte v
unfolding read_byte
byte-Reads v h = (v ∷ [], byte-eq v h, λ rest. refl)

pub bytes-Reads : (n : ℕ) (bs : List ℕ) → length bs ≡ n → Reads ok (take_exact n) bs
bytes-Reads n bs h = (bs, refl, λ rest. take_exact-front n bs rest h)

pub serialize_bytes-Reads :
    (bs : List ℕ) → length bs < 256 ^ 67 → Reads serialize_bytes decode_bytes bs
unfolding serialize_bytes decode_bytes
serialize_bytes-Reads bs h =
    let (p, e, r) = encode_scale_int-Reads (length bs) h in
    (
      p ++ bs,
      rw e refl,
      λ rest.
          rw (append_assoc p bs rest, r (bs ++ rest)) (take_exact-front (length bs) bs rest refl),
    )

-- Fewer than 256 ^ 67 bytes are written behind their length, without a raise, and read back in
-- front of any bytes.
pub decode_bytes-serialize :
    (data_ rest : List ℕ)
    → length data_ < 256 ^ 67
    → (serialize_bytes data_ >>= (λ bs. decode_bytes (bs ++ rest))) ≡ ok (data_, rest)
decode_bytes-serialize data_ rest h =
    Reads-back serialize_bytes decode_bytes data_ rest (serialize_bytes-Reads data_ h)

u128-Reads : (v : ℕ) → v < 2 ^ 128 → Reads serialize_u128 read_u128 v
unfolding serialize_u128 read_u128
u128-Reads v h =
    let (p, e, r) = pack-Reads 8 (v % 2 ^ 64) (omega arith) in
    let (q, f, s) = pack-Reads 8 (v / 2 ^ 64) (omega arith) in
    (
      p ++ q,
      rw (e, f) refl,
      λ rest. rw (append_assoc p q rest, r (q ++ rest), s rest, div-add-mod v (2 ^ 64)) refl,
    )

utxo_spend-Reads : (u : UtxoSpend) → IsSpend u → Reads serialize_utxo_spend read_utxo_spend u
unfolding serialize_utxo_spend read_utxo_spend serialize_u32
utxo_spend-Reads u (hv, ho, ht, hh, hn) =
    let (p, e, r) = u128-Reads u.value hv in
    let (q, f, s) = byte-Reads u.type_ ht in
    let (w, g, t) = pack-Reads 4 u.output_no hn in
    (
      p ++ u.owner ++ q ++ u.intent_hash ++ w,
      rw (e, f, g) refl,
      λ rest.
          rw
            (
              append_assoc (p ++ u.owner ++ q ++ u.intent_hash) w rest,
              append_assoc (p ++ u.owner ++ q) u.intent_hash (w ++ rest),
              append_assoc (p ++ u.owner) q (u.intent_hash ++ (w ++ rest)),
              append_assoc p u.owner (q ++ (u.intent_hash ++ (w ++ rest))),
              r (u.owner ++ (q ++ (u.intent_hash ++ (w ++ rest)))),
              take_exact-front 32 u.owner (q ++ (u.intent_hash ++ (w ++ rest))) ho,
              s (u.intent_hash ++ (w ++ rest)),
              take_exact-front 32 u.intent_hash (w ++ rest) hh,
              t rest,
            )
            refl,
    )

utxo_output-Reads : (u : UtxoOutput) → IsOutput u → Reads serialize_utxo_output read_utxo_output u
unfolding serialize_utxo_output read_utxo_output
utxo_output-Reads u (hv, ho, ht) =
    let (p, e, r) = u128-Reads u.value hv in
    let (q, f, s) = byte-Reads u.type_ ht in
    (
      p ++ u.owner ++ q,
      rw (e, f) refl,
      λ rest.
          rw
            (
              append_assoc (p ++ u.owner) q rest,
              append_assoc p u.owner (q ++ rest),
              r (u.owner ++ (q ++ rest)),
              take_exact-front 32 u.owner (q ++ rest) ho,
              s rest,
            )
            refl,
    )

-- Items that are read back one by one are read back as a list.
pub each-Reads {ℓ} :
    {A : Type ℓ} (write : A → Result (List ℕ)) (read : Reader A) (P : A → Type 0)
    → ((a : A) → P a → Reads write read a)
    → (as_ : List A) → All P as_
    → Reads (serialize_each write) (read_each read (length as_)) as_
unfolding serialize_each read_each
each-Reads write read P each [] h = ([], refl, λ rest. refl)
each-Reads write read P each (a ∷ as_) h =
    let (p, e, r) = each a h.0 in
    let (q, f, s) = each-Reads write read P each as_ h.1 in
    (p ++ q, rw (e, f) refl, λ rest. rw (append_assoc p q rest, r (q ++ rest), s rest) refl)

pub vec-Reads {ℓ} :
    {A : Type ℓ} (write : A → Result (List ℕ)) (read : Reader A) (P : A → Type 0)
    → ((a : A) → P a → Reads write read a)
    → (as_ : List A) → All P as_
    → length as_ < 256 ^ 67
    → Reads (serialize_vec write) (read_vec read) as_
unfolding serialize_vec read_vec
vec-Reads write read P each as_ h fits =
    let (p, e, r) = encode_scale_int-Reads (length as_) fits in
    let (q, f, s) = each-Reads write read P each as_ h in
    (p ++ q, rw (e, f) refl, λ rest. rw (append_assoc p q rest, r (q ++ rest)) (s rest))

pub unshielded_offer-Reads :
    (offer : UnshieldedOffer)
    → IsOffer offer
    → Reads serialize_unshielded_offer read_unshielded_offer offer
unfolding serialize_unshielded_offer read_unshielded_offer
unshielded_offer-Reads offer ((hi, li), (ho, lo), (hs, ls)) =
    let (p, e, r) =
      vec-Reads serialize_utxo_spend read_utxo_spend IsSpend utxo_spend-Reads offer.inputs hi li in
    let (q, f, s) =
      vec-Reads serialize_utxo_output read_utxo_output IsOutput utxo_output-Reads offer.outputs ho
        lo in
    let (w, g, t) =
      vec-Reads ok (take_exact 64) IsSignature (bytes-Reads 64) offer.signatures hs ls in
    (
      p ++ q ++ w,
      rw (e, f, g) refl,
      λ rest.
          rw
            (
              append_assoc (p ++ q) w rest,
              append_assoc p q (w ++ rest),
              r (q ++ (w ++ rest)),
              s (w ++ rest),
              t rest,
            )
            refl,
    )

-- An offer whose fields are in the ranges of the ledger is written without a raise, and a reader
-- of the structures finds it, with its inputs, outputs and signatures in order, in front of any
-- bytes.
pub read_unshielded_offer-serialize :
    (offer : UnshieldedOffer) (rest : List ℕ)
    → IsOffer offer
    → (serialize_unshielded_offer offer >>= (λ bs. read_unshielded_offer (bs ++ rest)))
      ≡ ok (offer, rest)
read_unshielded_offer-serialize offer rest h =
    Reads-back serialize_unshielded_offer read_unshielded_offer offer rest
      (unshielded_offer-Reads offer h)
