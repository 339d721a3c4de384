-- ===== src/Tx/Reaching.antt =====
-- A transfer of src/noxipher/tx/builder.py from funds in the ranges of the ledger reaches the node.
use noxipher.Prelude.{
  ℕ, ◌+◌, ◌^◌, ◌≤◌, ◌<◌, ◌≡◌, refl, arith, false, List, [], ◌++◌, Option, All, length,
}
use noxipher.Prelude.Integers.{ℤ, pos, pos_part, ◌+ℤ◌, ◌-ℤ◌, ltb_ℤ, excess_lem, +ℤ_parts}
use noxipher.Core.Exceptions.{ok, ◌>>=◌}
use noxipher.Core.Config.{Network}
use noxipher.Address.Codec.{decode_address}
use noxipher.Wallet.Utxo.{Utxo}
use noxipher.Wallet.Wallets.{MidnightWallet}
use noxipher.Tx.Transaction.{StandardTransaction}
use noxipher.Tx.Readers.{IsAscii}
use noxipher.Tx.Builder.{
  UnshieldedTransfer, eligible_utxos, select_utxos, change_outputs, recipient_outputs,
  commitment_to, assemble_transfer, fee_or_min, build_unshielded_transfer, wallet_utxos,
  or_transaction_error,
}
use noxipher.Tx.Selection.{
  total_value, select_utxos-enough, select_utxos-All, select_utxos-le, length-select_utxos,
  eligible-All, length-eligible,
}
use noxipher.Tx.Ranges.{length-commitment_to, IsSpendable, spends_of-IsSpend, outputs-IsOutput}
use noxipher.Tx.KeptOffers.{offers}
use noxipher.Tx.Envelope.{structure_by, finalize_option}
use noxipher.Tx.Serialize.{as_standard, finish_transaction, serialize_tx}
use noxipher.Tx.Written.{read_extrinsic, finished-Written}
use noxipher.Tx.Entry.{Services, bare_tx, standard_dict, with_fee_part, send, transfer_unshielded}

module _ (net : Services) (wallet : MidnightWallet) (ascii : IsAscii net.config.name)
    (short : length net.config.name < 2 ^ 64) (key : length wallet.unshielded.public_key ≡ 32)
    (random : length net.unshielded_rnd ≡ 32) (random' : length net.binding_rnd ≡ 32)
    (sizes : (payload : List ℕ)
      → (length (wallet.dust.sign payload) ≡ 64)
        × (length (wallet.unshielded.sign payload) ≡ 64)) where
  -- Where the recipient's address decodes to 32 bytes, the indexer's UTXOs are in the ranges of the
  -- ledger, and those of the token are worth the amount and the fee and less than 2 ^ 128, a
  -- transfer is built, and bytes are submitted that a reader finds to be an extrinsic of it, with
  -- the inputs and outputs that were built; its result is what the node, and then the wait, answer.
  -- The network's name is ASCII, keys and random bytes have 32 bytes, signatures 64.
  pub transfer_reaches_node :
      (to token_type : List ℕ) (amount real_fee : ℕ) (fee : Option ℤ) (ttl : ℕ) (kind : List ℕ)
      (network : Network) (recipient : List ℕ) (utxos : List Utxo)
      → decode_address to ≡ ok (kind, network, recipient)
      → length recipient ≡ 32
      → net.get_utxos wallet.unshielded.address ≡ ok utxos
      → All IsSpendable utxos
      → length utxos < 2 ^ 64
      → fee_or_min net.config fee ≡ pos real_fee
      → amount + real_fee ≤ total_value (eligible_utxos token_type utxos)
      → total_value (eligible_utxos token_type utxos) < 2 ^ 128
      → ttl < 2 ^ 32
      → (part : UnshieldedTransfer) × (stx : StandardTransaction) × (raw_bytes : List ℕ)
        × (build_unshielded_transfer net.config net.get_utxos net.unshielded_rnd wallet to
              (pos amount)
              fee
              ttl
              token_type
              false
            ≡ ok part)
        × (read_extrinsic raw_bytes ≡ ok (stx, []))
        × (offers stx.intents ≡ offers part.standard.intents)
        × (transfer_unshielded net wallet to (pos amount) token_type fee ttl
            ≡ (net.submit raw_bytes >>= net.wait))
  unfolding build_unshielded_transfer wallet_utxos or_transaction_error transfer_unshielded send
      serialize_tx finish_transaction structure_by finalize_option with_fee_part bare_tx
      standard_dict assemble_transfer as_standard
  transfer_reaches_node to token_type amount real_fee fee ttl kind network recipient utxos decoded
        size found spendable few asked enough small ttl_fits =
      let pk = wallet.unshielded.public_key in
      let us = eligible_utxos token_type utxos in
      let r = pos amount +ℤ pos real_fee in
      let parts = +ℤ_parts (pos amount) (pos real_fee) in
      let chosen = select_utxos r us in
      let holds : ltb_ℤ (pos chosen.1) r ≡ false =
        ground (arith, select_utxos-enough r us (omega (arith, parts))) in
      let (ss, spent, spends, same) =
        spends_of-IsSpend pk chosen.0 key (
          select_utxos-All IsSpendable r us
            (eligible-All IsSpendable token_type utxos spendable)) in
      let change = pos_part (pos chosen.1 -ℤ r) in
      let left = excess_lem chosen.1 r (ground (arith, holds)) in
      let (paid, two) =
        outputs-IsOutput recipient pk (pos amount) change size key (omega (arith, small))
          (omega (arith, small, select_utxos-le r us, left, parts)) in
      let outputs = recipient_outputs recipient (pos amount) ++ (change_outputs pk change).0 in
      let real = pos real_fee +ℤ pos (change_outputs pk change).1 in
      let (stx, raw, finished, written, read, kept) =
        finished-Written ss outputs ttl spends
          (omega (arith, same, few, length-select_utxos r us, length-eligible token_type utxos))
          paid two ttl_fits net.config.name ascii short wallet sizes net.unshielded_rnd
          net.binding_rnd (commitment_to net.unshielded_rnd real) real random random'
          (length-commitment_to net.unshielded_rnd real) in
      (
        assemble_transfer net.config net.unshielded_rnd recipient pk (pos amount) (pos real_fee) ttl
            ss chosen.1,
        as_standard stx,
        raw,
        rw (decoded, found, asked, holds, spent) refl,
        read,
        kept,
        rw (decoded, found, asked, holds, spent, finished, written) refl,
      )
