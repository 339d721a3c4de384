-- ===== src/Tx/Plain.antt =====
-- A transaction of one plain intent, as src/noxipher/tx/builder.py makes it of a transfer, is in the
-- ranges of the ledger, and can be signed.
use noxipher.Prelude.{
  ℕ, ◌^◌, ◌≤◌, ◌<◌, ◌≡◌, refl, arith, List, [], ◌∷◌, ◌++◌, none, some, All, length, codes,
}
use noxipher.Core.Exceptions.{ok}
use noxipher.Wallet.Wallets.{MidnightWallet}
use noxipher.Tx.Structures.{UtxoSpend, UtxoOutput, Intent}
use noxipher.Tx.Compact.{serialize_u32}
use noxipher.Tx.CompactRoundTrip.{pack-Reads}
use noxipher.Tx.OfferRoundTrip.{IsSpend, IsOutput, IsSignature}
use noxipher.Tx.Transaction.{Segments, get_unshielded_signing_payload}
use noxipher.Tx.Readers.{IsIntent}
use noxipher.Tx.TransactionRoundTrip.{intent-Reads}
use noxipher.Tx.Signing.{
  signer_of, with_signature, sign_guaranteed, sign_fallible, sign_intent, sign_intents,
}

-- An intent with a guaranteed offer only, before it is signed.
abbrev pub plain_intent : List UtxoSpend → List UtxoOutput → List (List ℕ) → ℕ → List ℕ → Intent
plain_intent inputs outputs signatures ttl commitment = record {
  guaranteed_unshielded_offer =
      some (record { inputs = inputs; outputs = outputs; signatures = signatures });
  fallible_unshielded_offer = none;
  ttl = ttl;
  actions = [];
  binding_commitment = commitment;
}

module _ (inputs : List UtxoSpend) (outputs : List UtxoOutput) (ttl : ℕ)
    (spends : All IsSpend inputs) (few : length inputs < 256 ^ 67) (paid : All IsOutput outputs)
    (two : length outputs ≤ 2) (ttl_fits : ttl < 2 ^ 32) where
  pub plain-IsIntent :
      (signatures : List (List ℕ)) (commitment : List ℕ)
      → All IsSignature signatures
      → length signatures ≤ 1
      → length commitment ≡ 32
      → IsIntent (plain_intent inputs outputs signatures ttl commitment)
  plain-IsIntent signatures commitment signed one size = (
    ((spends, few), (paid, omega (arith, two)), (signed, omega (arith, one))),
    tt,
    ttl_fits,
    tt,
    omega arith,
    size,
  )

  abbrev pub plain_segments : List (List ℕ) → List ℕ → Segments Intent
  plain_segments signatures commitment =
      (0, plain_intent inputs outputs signatures ttl commitment) ∷ []

  -- One intent is signed, by whoever owns its first input.
  pub sign_plain :
      (wallet : MidnightWallet) (commitment : List ℕ)
      → length commitment ≡ 32
      → (payload : List ℕ) × (sign_intents wallet none (plain_segments [] commitment)
          ≡ ok (
              plain_segments
                (signer_of wallet
                    (record { inputs = inputs; outputs = outputs; signatures = [] })
                    payload
                  ∷ [])
                commitment))
  unfolding sign_intents sign_intent sign_guaranteed sign_fallible with_signature
      get_unshielded_signing_payload serialize_u32
  sign_plain wallet commitment size =
      let (p, e, _) = pack-Reads 4 0 (omega arith) in
      let (q, f, _) =
        intent-Reads (plain_intent inputs outputs [] ttl commitment)
          (plain-IsIntent [] commitment tt (omega arith) size) in
      (codes "midnight:unshielded-sig[v1]" ++ p ++ q, rw (e, f) refl)
