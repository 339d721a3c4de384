-- ===== src/Dapp/Tests.antt =====
-- `balance_transaction` of src/noxipher/dapp/connector.py on a concrete transaction.
use noxipher.Prelude.{ℕ, ◌≡◌, refl, List, [], ◌∷◌, none, some, replicate, list_eq}
use noxipher.Core.Exceptions.{Result, ok}
use noxipher.Wallet.Hex.{fromhex, digit_value, push_byte, is_space, hex, hex_digit}
use noxipher.Wallet.Utxo.{
  Utxo, value_at, value_or_zero, i_hash, o_no, or_text, or_number, u_token, or_token, token_text,
  insert_utxo, sort_largest_first,
}
use noxipher.Tx.Builder.{spend_of}
use noxipher.Dapp.Connector.{
  DraftIntent, UnboundTransaction, is_used, unused_night, add_inputs, add_change, close_offer,
  balance_offer, offer_or_empty, balance_intent, balance_transaction,
}
use noxipher.Dapp.Balancing.{IsBalanced, bound_intent, balance_transaction_balances}

abbrev key : List ℕ
key = replicate 32 5

abbrev utxo_of : ℕ → Utxo
utxo_of v = record {
  value = some v;
  token_type = none;
  token_type_camel = none;
  intent_hash = none;
  intent_hash_camel = none;
  output_no = some 0;
  output_no_camel = none;
}

abbrev utxos : Result (List Utxo)
utxos = ok (utxo_of 4_000 ∷ utxo_of 9_000 ∷ [])

-- A transaction without an offer, which needs its fee.
abbrev unbound : UnboundTransaction
unbound = record {
  text_0 = some (record { guaranteed_unshielded_offer = none; ttl = none; actions = [] });
  int_0 = none;
}

balanced : (balance_transaction key 10_000 1800 utxos unbound).1 ≡ ok tt
unfolding balance_transaction balance_intent balance_offer close_offer add_inputs add_change
    unused_night is_used spend_of value_at fromhex digit_value push_byte is_space i_hash or_text
    o_no or_number u_token or_token token_text list_eq hex hex_digit sort_largest_first insert_utxo
    value_or_zero offer_or_empty
balanced = refl

balance_transaction_balances_example :
    (intent : DraftIntent) × (bound_intent (balance_transaction key 10_000 1800 utxos unbound).0
      ≡ some intent)
    × IsBalanced 10_000 1800 intent
balance_transaction_balances_example =
    balance_transaction_balances key 10_000 1800 utxos unbound balanced
