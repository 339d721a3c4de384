-- ===== src/Tx/Written.antt =====
-- A transfer of src/noxipher/tx/builder.py is bound, signed and written as an extrinsic, and a reader
-- finds it there.
use noxipher.Prelude.{
  ℕ, ◌^◌, ◌≤◌, ◌<◌, ◌≡◌, refl, sym, ap, ◌∙◌, arith, true, inl, inr, Bool-cases, List, [], ◌∷◌, ◌++◌,
  append-nil, ◌&&◌, Option, none, some, All, length, list_eq, if◌then◌else◌,
}
use noxipher.Core.Exceptions.{Result, ok, err, ◌>>=◌, >>=-eq-ok, value_error}
use noxipher.Prelude.Integers.{ℤ}
use noxipher.Tx.Builder.{commitment_to}
use noxipher.Wallet.Wallets.{MidnightWallet}
use noxipher.Tx.Structures.{UtxoSpend, UtxoOutput, UnshieldedOffer, Intent}
use noxipher.Tx.CompactRoundTrip.{
  Reader, take_exact, take_exact-front, decode_scale_int, encode_scale_int-Reads,
}
use noxipher.Tx.OfferRoundTrip.{IsSpend, IsOutput}
use noxipher.Tx.Transaction.{
  StandardTransaction, Segments, insert_segment, sort_segments, serialize_transaction,
  serialize_standard_transaction, serialize_raw_midnight_tx,
}
use noxipher.Tx.Readers.{read_standard_transaction, IsAscii, IsIntent}
use noxipher.Tx.TransactionRoundTrip.{read_standard_transaction-serialize}
use noxipher.Tx.Ranges.{length-commitment_to}
use noxipher.Tx.Envelope.{StandardDict, zeros32, finalize_binding, commit_intent}
use noxipher.Tx.Signing.{input_owner, signer_of}
use noxipher.Tx.Serialize.{as_standard, sign_if}
use noxipher.Tx.KeptOffers.{offers}
use noxipher.Tx.Plain.{plain_intent, plain-IsIntent, sign_plain}
use noxipher.Tx.PlainSize.{transaction-Fits}

-- The bytes of an extrinsic that holds a transaction, which the source does not read.
unfoldable pub read_extrinsic : Reader StandardTransaction
read_extrinsic bs = do
  (head, bs1) ← take_exact 2 bs
  (size, bs2) ← decode_scale_int bs1
  (body, rest) ← take_exact size bs2
  (stx, left) ← read_standard_transaction body
  if list_eq head (5 ∷ 0 ∷ []) && list_eq left [] then ok (stx, rest) else err value_error

raw-read :
    (bytes : List ℕ) (stx : StandardTransaction)
    → length bytes < 256 ^ 67
    → read_standard_transaction bytes ≡ ok (stx, [])
    → (raw : List ℕ) × (serialize_raw_midnight_tx bytes ≡ ok raw)
      × (read_extrinsic raw ≡ ok (stx, []))
unfolding serialize_raw_midnight_tx read_extrinsic list_eq
raw-read bytes stx short h =
    let (prefix, e, r) = encode_scale_int-Reads (length bytes) short in
    let all : take_exact (length bytes) bytes ≡ ok (bytes, []) =
      ap (take_exact (length bytes)) (sym (append-nil bytes))
      ∙ take_exact-front (length bytes) bytes [] refl in
    (
      5 ∷ 0 ∷ prefix ++ bytes,
      rw e refl,
      rw (take_exact-front 2 (5 ∷ 0 ∷ []) (prefix ++ bytes) refl, r bytes, all, h) refl,
    )

-- A dict that is finished and written as bytes that are read back.
abbrev pub Written : MidnightWallet → Segments Intent → Result (Option StandardDict) → Type 0
Written wallet intents finished =
    (stx : StandardDict) × (raw_bytes : List ℕ) × (finished ≡ ok (some stx))
    × ((serialize_transaction (as_standard stx) >>= serialize_raw_midnight_tx) ≡ ok raw_bytes)
    × (read_extrinsic raw_bytes ≡ ok (as_standard stx, []))
    × (offers stx.intents ≡ offers intents)

module _ (inputs : List UtxoSpend) (outputs : List UtxoOutput) (ttl : ℕ)
    (spends : All IsSpend inputs) (few : length inputs < 2 ^ 64) (paid : All IsOutput outputs)
    (two : length outputs ≤ 2) (ttl_fits : ttl < 2 ^ 32) (name : List ℕ) (ascii : IsAscii name)
    (short : length name < 2 ^ 64) (wallet : MidnightWallet)
    (sizes : (payload : List ℕ)
      → (length (wallet.dust.sign payload) ≡ 64)
        × (length (wallet.unshielded.sign payload) ≡ 64)) where
  signature_size :
      (offer : UnshieldedOffer) (payload : List ℕ) → length (signer_of wallet offer payload) ≡ 64
  unfolding signer_of
  signature_size offer payload =
      elim (Bool-cases (list_eq (input_owner offer.inputs) wallet.dust.public_key)) [
        | inl e ↦ rw e (sizes payload).0
        | inr e ↦ rw e (sizes payload).1
      ]

  abbrev plain_dict : List ℕ → List ℕ → StandardDict
  plain_dict commitment rnd = record {
    network_id = name;
    intents = (0, plain_intent inputs outputs [] ttl commitment) ∷ [];
    fallible_coins = none;
    binding_randomness = some rnd;
  }

  -- A bound dict is signed and written.
  signed-Written :
      (commitment rnd : List ℕ)
      → length commitment ≡ 32
      → length rnd ≡ 32
      → Written wallet
          (plain_dict commitment rnd).intents
          (sign_if true wallet (some (plain_dict commitment rnd)))
  unfolding sign_if as_standard serialize_transaction sort_segments insert_segment
  signed-Written commitment rnd size random =
      let (payload, signed) =
        sign_plain inputs outputs ttl spends (omega (arith, few)) paid two ttl_fits wallet
          commitment size in
      let offer : UnshieldedOffer = record {
        inputs = inputs;
        outputs = outputs;
        signatures = [];
      } in
      let signatures : List (List ℕ) = signer_of wallet offer payload ∷ [] in
      let stx : StandardDict = record (plain_dict commitment rnd) {
        intents = (0, plain_intent inputs outputs signatures ttl commitment) ∷ [];
      } in
      let is : IsIntent (plain_intent inputs outputs signatures ttl commitment) =
        plain-IsIntent inputs outputs ttl spends (omega (arith, few)) paid two ttl_fits signatures
          commitment (signature_size offer payload, tt) (omega arith) size in
      let (bytes, written, read) =
        >>=-eq-ok (serialize_standard_transaction (as_standard stx))
          (λ bs. read_standard_transaction (bs ++ []))
          (read_standard_transaction-serialize (as_standard stx) [] ascii ((omega arith, is), tt)
            (omega arith) refl random) in
      let fits =
        transaction-Fits inputs outputs signatures ttl commitment spends paid
          (signature_size offer payload, tt) size name rnd ascii random bytes written in
      let (raw, wrapped, read_back) =
        raw-read bytes (as_standard stx) (omega (arith, fits, few, two, short))
          (ap read_standard_transaction (sym (append-nil bytes)) ∙ read) in
      (
        stx,
        raw,
        rw signed refl,
        ap (λ (r : Result (List ℕ)). r >>= serialize_raw_midnight_tx) written ∙ wrapped,
        read_back,
        refl,
      )

  -- So is a dict that is bound before.
  pub finished-Written :
      (rnd fresh : List ℕ) (commitment : List ℕ) (fee : ℤ)
      → length rnd ≡ 32
      → length fresh ≡ 32
      → length commitment ≡ 32
      → Written wallet
          (plain_dict commitment rnd).intents
          (sign_if true wallet (some (finalize_binding fresh fee (plain_dict commitment rnd))))
  unfolding finalize_binding commit_intent
  finished-Written rnd fresh commitment fee random random' size =
      elim (Bool-cases (list_eq rnd zeros32)) [
        | inl none_yet ↦ rw none_yet (
            signed-Written (commitment_to fresh fee) fresh (length-commitment_to fresh fee) random')
        | inr bound ↦ rw bound (signed-Written commitment rnd size random)
      ]
