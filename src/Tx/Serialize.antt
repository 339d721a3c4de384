-- ===== src/Tx/Serialize.antt =====
-- `_serialize_transaction` of src/noxipher/tx/builder.py.
use noxipher.Prelude.{ℕ, Bool, true, false, List, [], Option, none, some}
use noxipher.Prelude.Integers.{pos}
use noxipher.Core.Exceptions.{Result, ok, ◌>>=◌, or_key_error}
use noxipher.Wallet.Wallets.{MidnightWallet}
use noxipher.Tx.Transaction.{StandardTransaction, serialize_transaction, serialize_raw_midnight_tx}
use noxipher.Tx.Envelope.{StandardDict, TxData, get_default, zeros32, structure_by, finalize_option}
use noxipher.Tx.Signing.{sign_intents}

-- `if tx_data.get("requires_unshielded_signature"):`
unfoldable pub sign_if : Bool → MidnightWallet → Option StandardDict → Result (Option StandardDict)
sign_if false wallet standard = ok standard
sign_if true wallet standard = do
  stx ← or_key_error standard
  intents ← sign_intents wallet none stx.intents
  ok (some (record stx { intents = intents }))

-- What `serialize_standard_transaction` reads; the binding step has set the randomness.
unfoldable pub as_standard : StandardDict → StandardTransaction
as_standard stx = record {
  network_id = stx.network_id;
  intents = stx.intents;
  fallible_coins = get_default stx.fallible_coins [];
  binding_randomness = get_default stx.binding_randomness zeros32;
}

-- The dict as it is serialized: structured, bound and signed.
unfoldable pub finish_transaction :
    List ℕ → List ℕ → TxData → MidnightWallet → Result (Option StandardDict)
finish_transaction network_name rnd tx wallet = do
  structured ← structure_by tx.kind network_name tx
  let bound = finalize_option rnd (get_default tx.fee (pos 0)) structured
  sign_if tx.requires_unshielded_signature wallet bound

unfoldable pub serialize_tx : List ℕ → List ℕ → TxData → MidnightWallet → Result (List ℕ)
serialize_tx network_name rnd tx wallet = do
  finished ← finish_transaction network_name rnd tx wallet
  stx ← or_key_error finished
  midnight_tx_bytes ← serialize_transaction (as_standard stx)
  serialize_raw_midnight_tx midnight_tx_bytes
