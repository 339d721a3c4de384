-- ===== src/Tx/EntryFailures.antt =====
-- Which entry points of src/noxipher/tx/builder.py never get to the node.
use noxipher.Prelude.{ℕ, ◌≡◌, ◌≢◌, refl, ap, Bool, ◌∙◌, List, [], Option}
use noxipher.Prelude.Integers.{ℤ}
use noxipher.Core.Exceptions.{Exception, ok, err, >>=-eq-ok, key_error, attribute_error}
use noxipher.Proof.Prover.{ProvenTransaction, prove_transaction, prove_transaction-eq-ok}
use noxipher.Wallet.Wallets.{MidnightWallet}
use noxipher.Tx.Transaction.{Argument}
use noxipher.Tx.Receipt.{TransactionReceipt}
use noxipher.Tx.Shielded.{Circuit, build_shielded_transfer}
use noxipher.Tx.Envelope.{
  TxKind, contract_call, shielded_transfer, TxData, call_action, place_proofs, proofs_by_role,
  structure_by,
}
use noxipher.Tx.Serialize.{finish_transaction, serialize_tx}
use noxipher.Tx.Entry.{
  Services, bare_tx, dumped, model_validate, with_fee_part, call_tx, send, prove_and_send, fee_part,
  transfer_shielded, call_contract,
}

-- What is left of a proven dict is refused before it is serialized.
structure_dumped_call :
    (name : List ℕ) (proven : ProvenTransaction)
    → structure_by contract_call name (dumped proven) ≡ err key_error
unfolding structure_by dumped call_action bare_tx
structure_dumped_call name proven = refl

structure_dumped_shielded :
    (name : List ℕ) (proven : ProvenTransaction)
    → structure_by shielded_transfer name (dumped proven) ≡ err attribute_error
unfolding structure_by dumped place_proofs proofs_by_role bare_tx
structure_dumped_shielded name proven = refl

kind-dumped : (proven : ProvenTransaction) → (dumped proven).kind ≡ proven.type_
unfolding dumped bare_tx
kind-dumped proven = refl

module _ (net : Services) where
  -- Sending a dict whose structuring raises raises the same.
  send-refused :
      (tx : TxData) (wallet : MidnightWallet) (kind : TxKind) (e : Exception)
      → tx.kind ≡ kind
      → structure_by kind net.config.name tx ≡ err e
      → send net tx wallet ≡ err e
  unfolding send serialize_tx finish_transaction
  send-refused tx wallet kind e same refused =
      let own : structure_by tx.kind net.config.name tx ≡ err e =
        ap (λ k. structure_by k net.config.name tx) same ∙ refused in
      rw own

  prove_and_send-refused :
      (tx : TxData) (circuits : List Circuit) (wallet : MidnightWallet) (kind : TxKind)
      (e : Exception) (receipt : TransactionReceipt)
      → tx.kind ≡ kind
      → ((proven : ProvenTransaction) → structure_by kind net.config.name (dumped proven) ≡ err e)
      → prove_and_send net tx circuits wallet ≢ ok receipt
  unfolding prove_and_send model_validate
  prove_and_send-refused tx circuits wallet kind e receipt same refused h =
      let (proven, proved, sent) =
        >>=-eq-ok (prove_transaction net.health net.prove (model_validate tx circuits)) _ h in
      let through : proven.type_ ≡ tx.kind =
        (prove_transaction-eq-ok net.health net.prove (model_validate tx circuits) proven
          proved).0 in
      let failed : send net (dumped proven) wallet ≡ err e =
        send-refused (dumped proven) wallet kind e (kind-dumped proven ∙ through ∙ same)
          (refused proven) in
      cc (failed, sent)

  -- Whatever the indexer, the proof server and the node answer, no contract call and no shielded
  -- transfer returns a receipt: what the prover hands back has no contract address, and its proofs
  -- are a list.
  pub no_receipt :
      (wallet : MidnightWallet) (to entry_point token_type : List ℕ) (args : Argument) (amount : ℕ)
      (fee : Option ℤ) (ttl : ℕ) (receipt : TransactionReceipt)
      → (call_contract net wallet to entry_point args fee ttl ≢ ok receipt)
        × (transfer_shielded net wallet to amount token_type fee ttl ≢ ok receipt)
  unfolding call_contract transfer_shielded call_tx with_fee_part bare_tx
  no_receipt wallet to entry_point token_type args amount fee ttl receipt = (
    λ h.
        let (part, _, sent) = >>=-eq-ok (fee_part net wallet fee ttl) _ h in
        prove_and_send-refused (call_tx part to entry_point args) [] wallet contract_call key_error
          receipt refl (structure_dumped_call net.config.name) sent,
    λ h.
        let (circuits, _, built) =
          >>=-eq-ok
            (build_shielded_transfer wallet.shielded wallet.shielded_state to amount token_type
              net.out_nonce net.change_nonce)
            _ h in
        let (part, _, sent) = >>=-eq-ok (fee_part net wallet fee ttl) _ built in
        prove_and_send-refused (with_fee_part part (bare_tx shielded_transfer Bool.true)) circuits
          wallet shielded_transfer attribute_error receipt refl
          (structure_dumped_shielded net.config.name) sent,
  )
