-- ===== src/Tx/Delivery.antt =====
-- What src/noxipher/tx/builder.py submits: a transaction that pays what it spends, signed by its
-- owners.
use noxipher.Prelude.{
  ℕ, ◌≡◌, refl, sym, ap, ◌∙◌, ◌⊎◌, inl, inr, Bool, true, false, List, Option, some, if◌then◌else◌,
}
use noxipher.Prelude.Integers.{ℤ, pos}
use noxipher.Core.Exceptions.{
  Exception, Result, ok, err, ◌>>=◌, >>=-eq-ok, Result-cases, or_key_error,
}
use noxipher.Wallet.Wallets.{MidnightWallet}
use noxipher.Tx.Structures.{Intent}
use noxipher.Tx.Transaction.{Segments, Argument, serialize_transaction, serialize_raw_midnight_tx}
use noxipher.Tx.Builder.{UnshieldedTransfer, build_unshielded_transfer}
use noxipher.Tx.Conservation.{inputs_of, outputs_of, PaysFor, build_unshielded_transfer_conserves}
use noxipher.Tx.Receipt.{TransactionReceipt}
use noxipher.Tx.Envelope.{contract_deploy, other_kind, zeros32, StandardDict, TxData}
use noxipher.Tx.SignedIntents.{SignedBy}
use noxipher.Tx.Serialize.{as_standard, finish_transaction, serialize_tx}
use noxipher.Tx.KeptOffers.{offers, totals_of_offers, finish-offers}
use noxipher.Tx.Entry.{
  Services, bare_tx, standard_dict, with_fee_part, deploy_tx, send, fee_part, transfer_unshielded,
  deploy_contract,
}

-- The transaction behind submitted bytes: it has the inputs and the outputs of the transfer that was
-- built, every guaranteed offer bears the signature of its owner over the intent as it was before
-- signing, and its inputs come to its outputs and the fee.
pub record IsSubmitted (wallet : MidnightWallet) (amount : ℤ) (part : UnshieldedTransfer)
    (raw_bytes : List ℕ) : Type 0 where
  pub stx : StandardDict
  pub midnight_tx_bytes : List ℕ
  pub unsigned : Segments Intent
  pub serialized : serialize_transaction (as_standard stx) ≡ ok midnight_tx_bytes
  pub wrapped : serialize_raw_midnight_tx midnight_tx_bytes ≡ ok raw_bytes
  pub kept : offers stx.intents ≡ offers part.standard.intents
  pub signed : SignedBy wallet unsigned stx.intents
  pub balanced : PaysFor amount part.fee (inputs_of stx.intents) (outputs_of stx.intents)

-- What building or serializing raised, or what the node, and then the wait, answer to the bytes.
abbrev pub Accounted :
    Services
    → MidnightWallet
    → ℤ
    → Result UnshieldedTransfer
    → (UnshieldedTransfer → TxData)
    → Result TransactionReceipt
    → Type 0
Accounted net wallet amount built tx_of r =
    ((e : Exception) × (built ≡ err e) × (r ≡ err e))
    ⊎ ((part : UnshieldedTransfer) × (built ≡ ok part)
        × (((e : Exception) × (serialize_tx net.config.name net.binding_rnd (tx_of part) wallet
                ≡ err e)
              × (r ≡ err e))
            ⊎ ((raw_bytes : List ℕ) × IsSubmitted wallet amount part raw_bytes
                × (r ≡ (net.submit raw_bytes >>= net.wait)))))

module _ (net : Services) (wallet : MidnightWallet) (amount : ℤ) where
  serialize_tx-IsSubmitted :
      (deploying : Bool) (tx : TxData) (part : UnshieldedTransfer) (raw : List ℕ)
      → tx.kind ≡ (if deploying then contract_deploy else other_kind)
      → tx.standard ≡ some (standard_dict part.standard)
      → tx.requires_unshielded_signature ≡ true
      → PaysFor amount part.fee (inputs_of part.standard.intents) (outputs_of part.standard.intents)
      → serialize_tx net.config.name net.binding_rnd tx wallet ≡ ok raw
      → IsSubmitted wallet amount part raw
  unfolding serialize_tx standard_dict
  serialize_tx-IsSubmitted deploying tx part raw kind e signed balance written =
      let name = net.config.name in
      let rnd = net.binding_rnd in
      let (o, finished, h2) = >>=-eq-ok (finish_transaction name rnd tx wallet) _ written in
      let (stx, at_end, kept, unsigned, by_owner) =
        finish-offers deploying name rnd tx wallet (standard_dict part.standard) o kind e signed
          finished in
      let (stx', found, h3) = >>=-eq-ok (or_key_error o) _ h2 in
      let same : stx' ≡ stx = cc (at_end, found) in
      let (bytes, serialized, wrapped) =
        >>=-eq-ok (serialize_transaction (as_standard stx')) _ h3 in
      let (spent, paid) = totals_of_offers part.standard.intents stx.intents kept in
      record {
        stx = stx;
        midnight_tx_bytes = bytes;
        unsigned = unsigned;
        serialized = ap (λ x. serialize_transaction (as_standard x)) (sym same) ∙ serialized;
        wrapped = wrapped;
        kept = kept;
        signed = by_owner;
        balanced = rw (spent, paid) balance;
      }

  accounted :
      (deploying : Bool) (built : Result UnshieldedTransfer) (tx_of : UnshieldedTransfer → TxData)
      → ((part : UnshieldedTransfer)
          → (built ≡ ok part)
          → PaysFor amount part.fee
              (inputs_of part.standard.intents)
              (outputs_of part.standard.intents))
      → ((part : UnshieldedTransfer)
          → ((tx_of part).kind ≡ (if deploying then contract_deploy else other_kind))
            × ((tx_of part).standard ≡ some (standard_dict part.standard))
            × ((tx_of part).requires_unshielded_signature ≡ true))
      → Accounted net wallet amount built tx_of (built >>= λ part. send net (tx_of part) wallet)
  unfolding send
  accounted deploying built tx_of balance shape = elim (Result-cases built) [
    | inr (e, failed) ↦ inl (e, failed, rw failed)
    | inl (part, made) ↦
        let tx = tx_of part in
        let (kind, standard, signed) = shape part in
        elim (Result-cases (serialize_tx net.config.name net.binding_rnd tx wallet)) [
          | inr (e, failed) ↦ inr (part, made, inl (e, failed, rw (made, failed)))
          | inl (raw, written) ↦ inr (
            part,
            made,
            inr (
              raw,
              serialize_tx-IsSubmitted deploying tx part raw kind standard signed
                  (balance part made) written,
              rw (made, written) refl,
            ),
          )
        ]
  ]

module _ (net : Services) (wallet : MidnightWallet) where
  -- An unshielded transfer or a deployment raises what building or serializing it raised, or bytes
  -- are submitted, and the result is what the node, and then the wait, answer. The bytes are of a
  -- transaction with the inputs and outputs that were built, signed by their owners; its inputs
  -- come to exactly its outputs and the fee, but for a negative amount, which they fall short by.
  pub receipts_balance :
      (to token_type bytecode : List ℕ) (initial_state : Argument) (amount : ℤ) (fee : Option ℤ)
      (ttl : ℕ)
      → Accounted net wallet amount
          (build_unshielded_transfer net.config net.get_utxos net.unshielded_rnd wallet to amount
            fee ttl token_type false)
          (λ part. with_fee_part part (bare_tx other_kind true))
          (transfer_unshielded net wallet to amount token_type fee ttl)
        × Accounted net wallet
            (pos 0)
            (fee_part net wallet fee ttl)
            (λ part. deploy_tx part bytecode initial_state)
            (deploy_contract net wallet bytecode initial_state fee ttl)
  unfolding transfer_unshielded deploy_contract deploy_tx with_fee_part bare_tx fee_part
  receipts_balance to token_type bytecode initial_state amount fee ttl = (
    accounted net wallet amount false
        (build_unshielded_transfer net.config net.get_utxos net.unshielded_rnd wallet to amount fee
          ttl token_type false)
        (λ part. with_fee_part part (bare_tx other_kind true))
        (λ part made.
          (build_unshielded_transfer_conserves net.config net.get_utxos net.unshielded_rnd wallet to
            amount fee ttl token_type false part made).0)
        (λ part. (refl, refl, refl)),
    accounted net wallet (pos 0) true (fee_part net wallet fee ttl)
        (λ part. deploy_tx part bytecode initial_state)
        (λ part made.
          (build_unshielded_transfer_conserves net.config net.get_utxos net.unshielded_rnd wallet
            wallet.unshielded.address (pos 0) fee ttl zeros32 true part made).0)
        (λ part. (refl, refl, refl)),
  )
