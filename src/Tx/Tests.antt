-- ===== src/Tx/Tests.antt =====
-- The encodings of src/noxipher/tx/scale.py and the transfers of builder.py on concrete inputs.
use noxipher.Prelude.{
  zero, suc, ℕ, ◌≡◌, refl, false, List, [], ◌∷◌, ◌++◌, codes, none, some, arith, replicate, list_eq,
}
use mathlib.Core.List.{Permᴰ}
use noxipher.Prelude.Integers.{pos, ◌+ℤ◌}
use noxipher.Core.Exceptions.{Result, ok, err, ◌>>=◌, transaction_error, indexer_error}
use noxipher.Core.Config.{NetworkConfig, preprod, network_configs}
use noxipher.Address.Tests.{three_bytes, dust_text, dust_text-decoded}
use noxipher.Address.Bech32m.{lower}
use noxipher.Zswap.State.{initial_state}
use noxipher.Wallet.Hex.{fromhex, digit_value, push_byte, is_space, hex, hex_digit, remove_0x}
use noxipher.Wallet.Utxo.{
  Utxo, value_at, value_or_zero, i_hash, or_text, u_token, or_token, token_text, has_token,
}
use noxipher.Wallet.Wallets.{MidnightWallet}
use noxipher.Tx.Compact.{encode_scale_int}
use noxipher.Tx.Structures.{UnshieldedOffer, Intent}
use noxipher.Tx.CompactRoundTrip.{decode_scale_int, decode_scale_int-encode}
use noxipher.Tx.Transaction.{StandardTransaction, serialize_standard_transaction}
use noxipher.Tx.SegmentOrder.{serialize_standard_transaction_reordered}
use noxipher.Tx.Builder.{
  UnshieldedTransfer, build_unshielded_transfer, wallet_utxos, eligible_utxos, native_night,
  fee_or_min,
}
use noxipher.Tx.Selection.{total_value}
use noxipher.Tx.Receipt.{
  IndexedTransaction, TransactionReceipt, wait_for_receipt, IsOutcome, wait_for_receipt_ends,
}
use noxipher.Tx.Conservation.{
  inputs_of, outputs_of, PaysFor, IsFeeOf, build_unshielded_transfer_conserves,
  build_unshielded_transfer_insufficient, build_unshielded_transfer_succeeds,
}

decode_scale_int-encode_example :
    (encode_scale_int 70_000 >>= (λ bs. decode_scale_int (bs ++ (9 ∷ [])))) ≡ ok (70_000, 9 ∷ [])
decode_scale_int-encode_example = decode_scale_int-encode 70_000 (9 ∷ []) (omega arith)

-- A value of the big mode.
decode_scale_int-encode_big :
    (encode_scale_int 5_000_000_000 >>= (λ bs. decode_scale_int (bs ++ [])))
    ≡ ok (5_000_000_000, [])
decode_scale_int-encode_big = decode_scale_int-encode 5_000_000_000 [] (omega arith)

abbrev key : List ℕ
key = replicate 32 5

abbrev offer : UnshieldedOffer
offer = record {
  inputs =
      record { value = 9_000; owner = key; type_ = 0; intent_hash = replicate 32 0; output_no = 1 }
      ∷ [];
  outputs = record { value = 4_000; owner = key; type_ = 0 } ∷ [];
  signatures = replicate 64 1 ∷ [];
}

abbrev intent : Intent
intent = record {
  guaranteed_unshielded_offer = some offer;
  fallible_unshielded_offer = none;
  ttl = 1800;
  actions = [];
  binding_commitment = replicate 32 2;
}

abbrev transaction : StandardTransaction
transaction = record {
  network_id = codes "Midnight Preprod";
  intents = [];
  fallible_coins = [];
  binding_randomness = replicate 32 3;
}

-- Three segments, in another order.
abbrev three : StandardTransaction
three = record transaction { intents = (10, intent) ∷ (2, intent) ∷ (0, intent) ∷ [] }

serialize_standard_transaction_reordered_example :
    serialize_standard_transaction (record three {
      intents = (2, intent) ∷ (10, intent) ∷ (0, intent) ∷ [];
      fallible_coins = [];
    })
    ≡ serialize_standard_transaction three
serialize_standard_transaction_reordered_example =
    serialize_standard_transaction_reordered three ((2, intent) ∷ (10, intent) ∷ (0, intent) ∷ [])
      [] (Permᴰ.swap refl refl) Permᴰ.nil
      ((omega arith, (omega arith, tt)), ((omega arith, tt), (tt, tt))) tt

-- A wallet with two UTXOs of NIGHT, worth 50,000 Specks.
abbrev wallet : MidnightWallet
wallet = record {
  unshielded = record { public_key = key; address = []; sign = λ m. m };
  dust = record { public_key = key; network = preprod; sign = λ m. m };
  shielded = record {
    coin_secret_key = [];
    coin_public_key = [];
    encryption_public_key = [];
    address = [];
  };
  shielded_state = initial_state;
  network = preprod;
}

abbrev utxo_of : ℕ → Utxo
utxo_of v = record {
  value = some v;
  token_type = none;
  token_type_camel = none;
  intent_hash = none;
  intent_hash_camel = none;
  output_no = some 0;
  output_no_camel = none;
}

abbrev indexer : List ℕ → Result (List Utxo)
indexer address = ok (utxo_of 20_000 ∷ utxo_of 30_000 ∷ [])

abbrev config : NetworkConfig
config = network_configs preprod

all_utxos : wallet_utxos config indexer key wallet false ≡ ok (utxo_of 20_000 ∷ utxo_of 30_000 ∷ [])
unfolding wallet_utxos
all_utxos = refl

-- All of it is of the token, and it can be read.
eligible_total :
    total_value (eligible_utxos native_night (utxo_of 20_000 ∷ utxo_of 30_000 ∷ [])) ≡ 50_000
unfolding eligible_utxos has_token u_token or_token token_text remove_0x lower hex hex_digit list_eq
    value_or_zero
eligible_total = refl

readable :
    (v : ℕ)
    → ((w : ℕ) × (value_at (utxo_of v) ≡ ok w))
      × ((h : List ℕ) × (fromhex (i_hash (utxo_of v)) ≡ ok h))
unfolding value_at i_hash or_text fromhex digit_value push_byte is_space
readable v = ((v, refl), (replicate 32 0, refl))

transfer :
    (t : UnshieldedTransfer) × (build_unshielded_transfer config indexer key wallet dust_text
        (pos 25_000)
        (some (pos 10_000))
        1800
        native_night
        false
      ≡ ok t)
transfer =
    build_unshielded_transfer_succeeds config indexer key wallet dust_text (pos 25_000)
      (some (pos 10_000)) 1800 native_night false (codes "dust", preprod, three_bytes)
      (utxo_of 20_000 ∷ utxo_of 30_000 ∷ []) dust_text-decoded all_utxos
      (readable 20_000, (readable 30_000, tt))
      (unfold fee_or_min ◌+ℤ◌ in omega (arith, eligible_total))

build_unshielded_transfer_conserves_example :
    PaysFor
      (pos 25_000)
      transfer.0.fee
      (inputs_of transfer.0.standard.intents)
      (outputs_of transfer.0.standard.intents)
    × IsFeeOf (fee_or_min config (some (pos 10_000))) transfer.0.fee
build_unshielded_transfer_conserves_example =
    build_unshielded_transfer_conserves config indexer key wallet dust_text (pos 25_000)
      (some (pos 10_000)) 1800 native_night false transfer.0 transfer.1

build_unshielded_transfer_insufficient_example :
    build_unshielded_transfer config indexer key wallet dust_text
      (pos 45_000)
      (some (pos 10_000))
      1800
      native_night
      false
    ≡ err transaction_error
build_unshielded_transfer_insufficient_example =
    build_unshielded_transfer_insufficient config indexer key wallet dust_text (pos 45_000)
      (some (pos 10_000)) 1800 native_night false (codes "dust", preprod, three_bytes)
      (utxo_of 20_000 ∷ utxo_of 30_000 ∷ []) dust_text-decoded all_utxos
      (unfold fee_or_min ◌+ℤ◌ in omega (arith, eligible_total))

-- An indexer that has the transaction at the third poll.
abbrev polls : ℕ → Result (List IndexedTransaction)
polls zero = ok []
polls (suc zero) = err indexer_error
polls (suc (suc k)) = ok (
    record {
      hash = codes "ab";
      block = none;
      status = some (codes "SUCCESS");
      paid_fees = some 500;
      events = [];
    }
    ∷ [])

wait_for_receipt_ends_example :
    (r : Result TransactionReceipt) × (wait_for_receipt polls (λ k. 1) 1_000 120 ≡ some r)
    × IsOutcome polls (λ k. 1) r
wait_for_receipt_ends_example = wait_for_receipt_ends polls (λ k. 1) 1_000 120
