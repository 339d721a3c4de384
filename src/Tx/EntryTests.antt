-- ===== src/Tx/EntryTests.antt =====
-- Signing and the entry points of src/noxipher/tx/builder.py on concrete inputs.
use noxipher.Prelude.{
  ◌++◌, arith, ℕ, ◌≡◌, ◌≢◌, refl, true, List, [], ◌∷◌, none, some, codes, replicate, list_eq,
}
use noxipher.Prelude.Digits.{le_bytes}
use noxipher.Core.Exceptions.{ok, ◌>>=◌, >>=-eq-ok}
use noxipher.Core.Config.{preprod, network_configs}
use noxipher.Zswap.State.{initial_state}
use noxipher.Wallet.Wallets.{MidnightWallet}
use noxipher.Tx.Compact.{byte, pack, big_mode, encode_scale_int, serialize_u32, serialize_u128}
use noxipher.Tx.Structures.{
  UnshieldedOffer, Intent, serialize_each, serialize_vec, serialize_utxo_spend,
  serialize_utxo_output, serialize_unshielded_offer, serialize_option_offer,
  serialize_contract_action, serialize_intent,
}
use noxipher.Tx.Transaction.{none_, get_unshielded_signing_payload}
use noxipher.Tx.Transaction.{StandardTransaction, sort_segments, serialize_standard_transaction}
use noxipher.Tx.Readers.{read_standard_transaction, IsIntent}
use noxipher.Tx.TransactionRoundTrip.{read_standard_transaction-serialize}
use noxipher.Tx.Bytes.{AreBytes}
use noxipher.Tx.TypedBytes.{TypedIntent}
use noxipher.Tx.TypedTransaction.{serialize_standard_transaction-AreBytes}
use noxipher.Tx.Receipt.{TransactionReceipt}
use noxipher.Tx.Signing.{
  input_owner, signer_of, with_signature, sign_guaranteed, or_unbound, sign_fallible, sign_intent,
  sign_intents,
}
use noxipher.Tx.SignedIntents.{SignedBy, sign_intents-SignedBy}
use noxipher.Tx.Entry.{Services, transfer_shielded, call_contract}
use noxipher.Tx.EntryFailures.{no_receipt}

abbrev key : List ℕ
key = replicate 32 5

abbrev dust_key : List ℕ
dust_key = replicate 32 6

-- The signatures tell the keys apart.
abbrev pub wallet : MidnightWallet
wallet = record {
  unshielded = record { public_key = key; address = []; sign = λ m. 1 ∷ [] };
  shielded = record {
    coin_secret_key = [];
    coin_public_key = [];
    encryption_public_key = [];
    address = [];
  };
  dust = record { public_key = dust_key; network = preprod; sign = λ m. 2 ∷ [] };
  shielded_state = initial_state;
  network = preprod;
}

abbrev offer : List ℕ → List (List ℕ) → UnshieldedOffer
offer owner signatures = record {
  inputs =
      record {
        value = 9_000;
        owner = owner;
        type_ = 0;
        intent_hash = replicate 32 0;
        output_no = 1;
      }
      ∷ [];
  outputs = record { value = 8_000; owner = key; type_ = 0 } ∷ [];
  signatures = signatures;
}

abbrev intent : List (List ℕ) → Intent
intent signatures = record {
  guaranteed_unshielded_offer = some (offer dust_key signatures);
  fallible_unshielded_offer = some (offer key signatures);
  ttl = 1800;
  actions = [];
  binding_commitment = replicate 32 0;
}

-- The fallible offer is signed by the signer of the guaranteed one.
signed : sign_intents wallet none ((0, intent []) ∷ []) ≡ ok ((0, intent ((2 ∷ []) ∷ [])) ∷ [])
unfolding sign_intents sign_intent sign_guaranteed sign_fallible or_unbound with_signature signer_of
    input_owner list_eq get_unshielded_signing_payload serialize_intent serialize_option_offer
    serialize_unshielded_offer serialize_vec serialize_each serialize_utxo_spend
    serialize_utxo_output serialize_contract_action serialize_u32 serialize_u128 byte pack big_mode
    encode_scale_int le_bytes
signed = refl

sign_intents-SignedBy_example :
    SignedBy wallet ((0, intent []) ∷ []) ((0, intent ((2 ∷ []) ∷ [])) ∷ [])
unfolding list_eq
sign_intents-SignedBy_example =
    sign_intents-SignedBy wallet none ((0, intent []) ∷ []) ((0, intent ((2 ∷ []) ∷ [])) ∷ [])
      signed

abbrev receipt : TransactionReceipt
receipt = record {
  hash = codes "ab";
  block_height = some 7;
  block_hash = none;
  status = codes "SUCCESS";
  fee_paid = 10_000;
  contract_address = none;
  events = [];
}

-- A network where every part answers.
abbrev pub net : Services
net = record {
  config = network_configs preprod;
  get_utxos = λ address. ok [];
  health = ok true;
  prove = λ id key circuit. ok (9 ∷ []);
  submit = λ raw. ok (codes "ab");
  wait = λ hash. ok receipt;
  unshielded_rnd = key;
  binding_rnd = key;
  out_nonce = key;
  change_nonce = dust_key;
}

no_receipt_example :
    (call_contract net wallet (codes "00") (codes "increment") none_ none 1800 ≢ ok receipt)
    × (transfer_shielded net wallet (codes "00") 5 (replicate 32 0) none 1800 ≢ ok receipt)
no_receipt_example =
    no_receipt net wallet (codes "00") (codes "increment") (replicate 32 0) none_ 5 none 1800
      receipt

-- Two intents, the later segment first.
abbrev standard : StandardTransaction
standard = record {
  network_id = codes "Midnight Preprod";
  intents = (3, intent []) ∷ (0, intent []) ∷ [];
  fallible_coins = [];
  binding_randomness = key;
}

intent-IsIntent : IsIntent (intent [])
intent-IsIntent = omega arith

read_standard_transaction-serialize_example :
    (serialize_standard_transaction standard >>= (λ bs. read_standard_transaction (bs ++ (7 ∷ []))))
    ≡ ok (
      record standard {
        intents = sort_segments ((3, intent []) ∷ (0, intent []) ∷ []);
        fallible_coins = [];
      },
      7 ∷ [],
    )
read_standard_transaction-serialize_example =
    read_standard_transaction-serialize standard (7 ∷ []) (omega arith, omega arith)
      ((omega arith, intent-IsIntent), ((omega arith, intent-IsIntent), tt)) (omega arith) refl refl

round_trip :
    (serialize_standard_transaction standard >>= (λ bs. read_standard_transaction (bs ++ (7 ∷ []))))
    ≡ ok (
      record standard {
        intents = sort_segments ((3, intent []) ∷ (0, intent []) ∷ []);
        fallible_coins = [];
      },
      7 ∷ [],
    )
round_trip =
    read_standard_transaction-serialize standard (7 ∷ []) (omega arith, omega arith)
      ((omega arith, intent-IsIntent), ((omega arith, intent-IsIntent), tt)) (omega arith) refl refl

typed_intent : TypedIntent (intent [])
typed_intent = omega arith

typed_intents : TypedIntent (intent []) × (TypedIntent (intent []) × Unit {0})
typed_intents = (typed_intent, (typed_intent, tt))

-- Its bytes.
written : (bs : List ℕ) × (serialize_standard_transaction standard ≡ ok bs)
written =
    let (bs, e, _) =
      >>=-eq-ok (serialize_standard_transaction standard)
        (λ bs. read_standard_transaction (bs ++ (7 ∷ []))) round_trip in
    (bs, e)

serialize_standard_transaction-AreBytes_example : AreBytes written.0
serialize_standard_transaction-AreBytes_example =
    serialize_standard_transaction-AreBytes standard written.0
      (omega arith, typed_intents, tt, omega arith) written.1
