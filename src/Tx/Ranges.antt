-- ===== src/Tx/Ranges.antt =====
-- The parts that src/noxipher/tx/builder.py makes of UTXOs in the ranges of the ledger are in these
-- ranges.
use noxipher.Prelude.{
  ◌+◌, ℕ, suc, ◌^◌, ◌≤◌, ◌<◌, ◌≡◌, refl, ap, arith, Bool, inl, inr, Bool-cases, List, [], ◌∷◌, ◌++◌,
  All, All-append, length, length-append, length-take, take, ltb, ◌==◌, ◌%◌, bit_or, get_or,
}
use noxipher.Prelude.Digits.{length-le_bytes}
use noxipher.Prelude.Integers.{ℤ, pos, pos_part, neg_part, ltb_ℤ}
use noxipher.Core.Exceptions.{ok}
use noxipher.Crypto.Fields.{to_bytes}
use noxipher.Crypto.Curves.{JubJubPoint, point_bytes, compute_binding_commitment}
use noxipher.Wallet.Hex.{fromhex}
use noxipher.Wallet.Utxo.{Utxo, value_at, i_hash, o_no}
use noxipher.Tx.Structures.{UtxoSpend}
use noxipher.Tx.OfferRoundTrip.{IsSpend, IsOutput}
use noxipher.Tx.Builder.{spend_of, spends_of, recipient_outputs, change_outputs, commitment_to}

length-to_bytes : (n : ℕ) → length (to_bytes n) ≡ 32
unfolding to_bytes
length-to_bytes n = length-le_bytes 32 n

length-point_bytes : (p : JubJubPoint) → length (point_bytes p) ≡ 32
unfolding point_bytes
length-point_bytes p = elim (Bool-cases (get_or (to_bytes p.u) 0 0 % 2 == 1)) [
  | inl odd ↦
      let front = take 31 (to_bytes p.v) in
      let last = bit_or (get_or (to_bytes p.v) 31 0) 0x80 ∷ [] in
      rw odd (
        omega (arith, length-append front last, length-take 31 (to_bytes p.v), length-to_bytes p.v))
  | inr even ↦ rw even (length-to_bytes p.v)
]

-- A commitment has 32 bytes.
length-compute_binding_commitment :
    (randomness : List ℕ) (negative : Bool) (value : ℕ)
    → length (compute_binding_commitment randomness negative value) ≡ 32
unfolding compute_binding_commitment
length-compute_binding_commitment randomness negative value = elim (Bool-cases (value == 0)) [
  | inl e ↦ rw e (length-point_bytes _)
  | inr e ↦ elim (Bool-cases negative) [
    | inl n ↦ rw (e, n) (length-point_bytes _)
    | inr n ↦ rw (e, n) (length-point_bytes _)
  ]
]

pub length-commitment_to : (rnd : List ℕ) (fee : ℤ) → length (commitment_to rnd fee) ≡ 32
unfolding commitment_to
length-commitment_to rnd fee =
    length-compute_binding_commitment rnd (ltb_ℤ fee (pos 0)) (pos_part fee + neg_part fee)

-- A UTXO whose fields the ledger can hold.
abbrev pub IsSpendable : Utxo → Type 0
IsSpendable u =
    ((v : ℕ) × (value_at u ≡ ok v) × (v < 2 ^ 128))
    × ((h : List ℕ) × (fromhex (i_hash u) ≡ ok h) × (length h ≡ 32))
    × (o_no u < 2 ^ 32)

pub spends_of-IsSpend :
    (pk : List ℕ) (us : List Utxo)
    → length pk ≡ 32
    → All IsSpendable us
    → (ss : List UtxoSpend) × (spends_of pk us ≡ ok ss) × All IsSpend ss × (length ss ≡ length us)
unfolding spends_of spend_of
spends_of-IsSpend pk [] size h = ([], refl, tt, refl)
spends_of-IsSpend pk (u ∷ us) size (((v, e, small), (x, f, hashed), number), h) =
    let (rest, g, ranges, same) = spends_of-IsSpend pk us size h in
    let spend : UtxoSpend = record {
      value = v;
      owner = pk;
      type_ = 0;
      intent_hash = x;
      output_no = o_no u;
    } in
    (
      spend ∷ rest,
      rw (e, f, g) refl,
      ((small, size, omega arith, hashed, number), ranges),
      ap suc same,
    )

recipient_outputs-IsOutput :
    (recipient : List ℕ) (amount : ℤ)
    → length recipient ≡ 32
    → pos_part amount < 2 ^ 128
    → All IsOutput (recipient_outputs recipient amount)
      × (length (recipient_outputs recipient amount) ≤ 1)
unfolding recipient_outputs
recipient_outputs-IsOutput recipient amount size small = elim (Bool-cases (ltb_ℤ (pos 0) amount)) [
  | inl e ↦ rw e (((small, size, omega arith), tt), omega arith)
  | inr e ↦ rw e (tt, omega arith)
]

change_outputs-IsOutput :
    (pk : List ℕ) (change : ℕ)
    → length pk ≡ 32
    → change < 2 ^ 128
    → All IsOutput (change_outputs pk change).0 × (length (change_outputs pk change).0 ≤ 1)
unfolding change_outputs
change_outputs-IsOutput pk change size small = elim (Bool-cases (change == 0)) [
  | inl e ↦ rw e (tt, omega arith)
  | inr e ↦ elim (Bool-cases (ltb change 1_000)) [
    | inl f ↦ rw (e, f) (tt, omega arith)
    | inr f ↦ rw (e, f) (((small, size, omega arith), tt), omega arith)
  ]
]

-- Both outputs of a transfer.
pub outputs-IsOutput :
    (recipient pk : List ℕ) (amount : ℤ) (change : ℕ)
    → length recipient ≡ 32
    → length pk ≡ 32
    → pos_part amount < 2 ^ 128
    → change < 2 ^ 128
    → All IsOutput (recipient_outputs recipient amount ++ (change_outputs pk change).0)
      × (length (recipient_outputs recipient amount ++ (change_outputs pk change).0) ≤ 2)
outputs-IsOutput recipient pk amount change size size' small small' =
    let (front, few) = recipient_outputs-IsOutput recipient amount size small in
    let (back, few') = change_outputs-IsOutput pk change size' small' in
    (
      All-append IsOutput (recipient_outputs recipient amount) (change_outputs pk change).0 front
          back,
      omega (
        arith,
        length-append (recipient_outputs recipient amount) (change_outputs pk change).0,
        few,
        few',
      ),
    )
