-- ===== src/Tx/ReachingTests.antt =====
-- A transfer of src/noxipher/tx/builder.py that reaches the node.
use noxipher.Prelude.{
  ℕ, ◌≡◌, ◌^◌, ◌<◌, refl, arith, true, false, List, [], ◌∷◌, none, some, codes, replicate, list_eq,
}
use noxipher.Prelude.Integers.{pos}
use noxipher.Core.Exceptions.{ok, ◌>>=◌}
use noxipher.Core.Config.{preprod, network_configs, network_eq, network_index}
use noxipher.Address.Codec.{hrp_table, hrp_of, encode_address, decode_address}
use noxipher.Address.Bech32m.{lower}
use noxipher.Address.RoundTrip.{decode_address-encode}
use noxipher.Wallet.Hex.{hex, hex_digit, fromhex, digit_value, push_byte, is_space, remove_0x}
use noxipher.Wallet.Utxo.{
  Utxo, value_or_zero, value_at, i_hash, o_no, or_text, or_number, or_token, token_text, u_token,
  has_token,
}
use noxipher.Wallet.Wallets.{MidnightWallet}
use noxipher.Tx.Builder.{
  UnshieldedTransfer, native_night, eligible_utxos, fee_or_min, build_unshielded_transfer,
}
use noxipher.Tx.Selection.{total_value}
use noxipher.Tx.Ranges.{IsSpendable}
use noxipher.Tx.KeptOffers.{offers}
use noxipher.Tx.Transaction.{StandardTransaction}
use noxipher.Tx.Written.{read_extrinsic}
use noxipher.Tx.Entry.{
  Services, bare_tx, with_fee_part, deploy_tx, fee_part, transfer_unshielded, deploy_contract,
}
use noxipher.Tx.Envelope.{other_kind}
use noxipher.Tx.Transaction.{none_}
use noxipher.Tx.Delivery.{Accounted, receipts_balance}
use noxipher.Tx.EntryTests.{net, wallet}
use noxipher.Tx.Reaching.{transfer_reaches_node}

abbrev recipient : List ℕ
recipient = replicate 32 7

unshielded_prefix : hrp_of hrp_table (codes "unshielded") preprod ≡ some (codes "mn_addr_preprod")
unfolding hrp_of hrp_table list_eq network_eq network_index
unshielded_prefix = refl

-- The recipient's address.
recipient_address :
    (text : List ℕ) × (encode_address recipient (codes "unshielded") preprod ≡ ok text)
    × (decode_address text ≡ ok (codes "unshielded", preprod, recipient))
recipient_address =
    decode_address-encode recipient (codes "unshielded") (codes "mn_addr_preprod") preprod
      (omega arith) unshielded_prefix

abbrev utxo_of : ℕ → Utxo
utxo_of v = record {
  value = some v;
  token_type = none;
  token_type_camel = none;
  intent_hash = none;
  intent_hash_camel = none;
  output_no = some 1;
  output_no_camel = none;
}

abbrev utxos : List Utxo
utxos = utxo_of 20_000 ∷ utxo_of 30_000 ∷ []

abbrev funded_net : Services
funded_net = record net { get_utxos = λ address. ok utxos }

abbrev signing_wallet : MidnightWallet
signing_wallet = record wallet {
  unshielded = record { public_key = replicate 32 5; address = []; sign = λ m. replicate 64 1 };
  dust = record { public_key = replicate 32 6; network = preprod; sign = λ m. replicate 64 2 };
}

spendable : (v : ℕ) → v < 2 ^ 128 → IsSpendable (utxo_of v)
unfolding value_at i_hash o_no or_text or_number fromhex digit_value push_byte is_space
spendable v small = ((v, refl, small), (replicate 32 0, refl, refl), omega arith)

funds : total_value (eligible_utxos native_night utxos) ≡ 50_000
unfolding eligible_utxos has_token u_token or_token token_text remove_0x lower hex hex_digit list_eq
    value_or_zero
funds = refl

transfer_reaches_node_example :
    (part : UnshieldedTransfer) × (stx : StandardTransaction) × (raw_bytes : List ℕ)
    × (build_unshielded_transfer funded_net.config funded_net.get_utxos funded_net.unshielded_rnd
          signing_wallet recipient_address.0
          (pos 25_000)
          (some (pos 10_000))
          1800
          native_night
          false
        ≡ ok part)
    × (read_extrinsic raw_bytes ≡ ok (stx, []))
    × (offers stx.intents ≡ offers part.standard.intents)
    × (transfer_unshielded funded_net signing_wallet recipient_address.0
          (pos 25_000)
          native_night
          (some (pos 10_000))
          1800
        ≡ (funded_net.submit raw_bytes >>= funded_net.wait))
unfolding network_configs fee_or_min
transfer_reaches_node_example =
    transfer_reaches_node funded_net signing_wallet (omega arith, omega arith) (omega arith) refl
      refl refl (λ payload. (refl, refl)) recipient_address.0 native_night 25_000 10_000
      (some (pos 10_000)) 1800 (codes "unshielded") preprod recipient utxos recipient_address.2 refl
      refl (spendable 20_000 (omega arith), (spendable 30_000 (omega arith), tt)) (omega arith) refl
      (omega (arith, funds)) (omega (arith, funds)) (omega arith)

-- The transfer of the last example: its receipt is of a transaction that was submitted.
receipts_balance_example :
    Accounted funded_net signing_wallet
      (pos 25_000)
      (build_unshielded_transfer funded_net.config funded_net.get_utxos funded_net.unshielded_rnd
        signing_wallet recipient_address.0
        (pos 25_000)
        (some (pos 10_000))
        1800
        native_night
        false)
      (λ part. with_fee_part part (bare_tx other_kind true))
      (transfer_unshielded funded_net signing_wallet recipient_address.0
        (pos 25_000)
        native_night
        (some (pos 10_000))
        1800)
    × Accounted funded_net signing_wallet
        (pos 0)
        (fee_part funded_net signing_wallet (some (pos 10_000)) 1800)
        (λ part. deploy_tx part (1 ∷ []) none_)
        (deploy_contract funded_net signing_wallet (1 ∷ []) none_ (some (pos 10_000)) 1800)
receipts_balance_example =
    receipts_balance funded_net signing_wallet recipient_address.0 native_night (1 ∷ []) none_
      (pos 25_000) (some (pos 10_000)) 1800
