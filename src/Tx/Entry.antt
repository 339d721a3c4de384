-- ===== src/Tx/Entry.antt =====
-- The entry points `transfer`, `call_contract` and `deploy_contract` of
-- src/noxipher/tx/builder.py. The network's parts are the record `Services`: what the indexer, the
-- proof server and the node answer, the receipt that the wait for a transaction's hash ends with,
-- and what `secrets` gives.
use noxipher.Prelude.{ℕ, Bool, true, false, List, [], ◌∷◌, Option, none, some, codes}
use noxipher.Prelude.Integers.{ℤ, pos}
use noxipher.Core.Exceptions.{Result, ◌>>=◌}
use noxipher.Core.Config.{NetworkConfig}
use noxipher.Proof.Prover.{CircuitDict, UnsignedTransaction, ProvenTransaction, prove_transaction}
use noxipher.Wallet.Utxo.{Utxo}
use noxipher.Wallet.Wallets.{MidnightWallet}
use noxipher.Tx.Transaction.{Argument, StandardTransaction}
use noxipher.Tx.Builder.{UnshieldedTransfer, build_unshielded_transfer}
use noxipher.Tx.Receipt.{TransactionReceipt}
use noxipher.Tx.Shielded.{Circuit, zswap_spend, zswap_output, build_shielded_transfer}
use noxipher.Tx.Envelope.{
  TxKind, contract_deploy, contract_call, shielded_transfer, other_kind, missing, listed, zeros32,
  StandardDict, TxData,
}
use noxipher.Tx.Serialize.{serialize_tx}

pub record Services : Type 0 where
  pub config : NetworkConfig
  pub get_utxos : List ℕ → Result (List Utxo)
  pub health : Result Bool
  pub prove : List ℕ → List ℕ → Circuit → Result (List ℕ)
  pub submit : List ℕ → Result (List ℕ)
  pub wait : List ℕ → Result TransactionReceipt
  pub unshielded_rnd : List ℕ
  pub binding_rnd : List ℕ
  pub out_nonce : List ℕ
  pub change_nonce : List ℕ

-- `circuit["id"]`; there is no "proving_key_hex".
unfoldable pub circuit_id : Circuit → List ℕ
circuit_id (zswap_spend coin sk_coin path nullifier root) = codes "zswap_spend"
circuit_id (zswap_output value recipient nonce commitment) = codes "zswap_output"

unfoldable pub circuit_dicts : List Circuit → List (CircuitDict Circuit)
circuit_dicts [] = []
circuit_dicts (c ∷ cs) =
    record { id = some (circuit_id c); proving_key_hex = none; inputs = c } ∷ circuit_dicts cs

-- A dict with these keys only.
unfoldable pub bare_tx : TxKind → Bool → TxData
bare_tx kind signed = record {
  kind = kind;
  standard = none;
  ttl = none;
  fee = none;
  bytecode = none;
  initial_state = none;
  contract_address = none;
  entry_point = none;
  args = none;
  proof_hexes = missing;
  merkle_root = none;
  requires_unshielded_signature = signed;
}

unfoldable pub standard_dict : StandardTransaction → StandardDict
standard_dict stx = record {
  network_id = stx.network_id;
  intents = stx.intents;
  fallible_coins = none;
  binding_randomness = some stx.binding_randomness;
}

-- `ProvenTransaction.model_dump()`, as far as it is read: the list of proofs, and none of the keys
-- that the model has no field for.
unfoldable pub dumped : ProvenTransaction → TxData
dumped proven = record (bare_tx proven.type_ proven.requires_unshielded_signature) {
  proof_hexes = listed proven.proof_hexes;
}

-- `UnsignedTransaction.model_validate` of a dict and its circuits: the keys that the model has no
-- field for are dropped.
unfoldable pub model_validate : TxData → List Circuit → UnsignedTransaction Circuit
model_validate tx circuits = record {
  type_ = tx.kind;
  requires_unshielded_signature = tx.requires_unshielded_signature;
  signing_payload_hex = [];
  circuits = circuit_dicts circuits;
  guaranteed_hex = [];
  fallible_hexes = [];
}

-- The keys that pay the fee.
unfoldable pub with_fee_part : UnshieldedTransfer → TxData → TxData
with_fee_part part tx = record tx {
  standard = some (standard_dict part.standard);
  fee = some part.fee;
}

unfoldable pub call_tx : UnshieldedTransfer → List ℕ → List ℕ → Argument → TxData
call_tx part contract_address entry_point args =
    record (with_fee_part part (bare_tx contract_call true)) {
      contract_address = some contract_address;
      entry_point = some entry_point;
      args = some args;
    }

unfoldable pub deploy_tx : UnshieldedTransfer → List ℕ → Argument → TxData
deploy_tx part bytecode initial_state = record (with_fee_part part (bare_tx contract_deploy true)) {
  bytecode = some bytecode;
  initial_state = some initial_state;
}

module _ (net : Services) where
  unfoldable pub send : TxData → MidnightWallet → Result TransactionReceipt
  send tx wallet = do
    raw_bytes ← serialize_tx net.config.name net.binding_rnd tx wallet
    tx_hash ← net.submit raw_bytes
    net.wait tx_hash

  -- `_prove_transaction`, and what follows it.
  unfoldable pub prove_and_send : TxData → List Circuit → MidnightWallet → Result TransactionReceipt
  prove_and_send tx circuits wallet = do
    proven ← prove_transaction net.health net.prove (model_validate tx circuits)
    send (dumped proven) wallet

  -- The part that pays the fee in DUST.
  unfoldable pub fee_part : MidnightWallet → Option ℤ → ℕ → Result UnshieldedTransfer
  fee_part wallet fee ttl =
      build_unshielded_transfer net.config net.get_utxos net.unshielded_rnd wallet
        wallet.unshielded.address (pos 0) fee ttl zeros32 true

  -- `transfer` with `shielded=False`.
  unfoldable pub transfer_unshielded :
      MidnightWallet → List ℕ → ℤ → List ℕ → Option ℤ → ℕ → Result TransactionReceipt
  transfer_unshielded wallet to amount token_type fee ttl = do
    part ←
        build_unshielded_transfer net.config net.get_utxos net.unshielded_rnd wallet to amount fee
          ttl token_type false
    send (with_fee_part part (bare_tx other_kind true)) wallet

  -- `transfer` with `shielded=True`.
  unfoldable pub transfer_shielded :
      MidnightWallet → List ℕ → ℕ → List ℕ → Option ℤ → ℕ → Result TransactionReceipt
  transfer_shielded wallet to amount token_type fee ttl = do
    circuits ←
        build_shielded_transfer wallet.shielded wallet.shielded_state to amount token_type
          net.out_nonce net.change_nonce
    part ← fee_part wallet fee ttl
    prove_and_send (with_fee_part part (bare_tx shielded_transfer true)) circuits wallet

  unfoldable pub call_contract :
      MidnightWallet → List ℕ → List ℕ → Argument → Option ℤ → ℕ → Result TransactionReceipt
  call_contract wallet contract_address entry_point args fee ttl = do
    part ← fee_part wallet fee ttl
    prove_and_send (call_tx part contract_address entry_point args) [] wallet

  unfoldable pub deploy_contract :
      MidnightWallet → List ℕ → Argument → Option ℤ → ℕ → Result TransactionReceipt
  deploy_contract wallet bytecode initial_state fee ttl = do
    part ← fee_part wallet fee ttl
    send (deploy_tx part bytecode initial_state) wallet
