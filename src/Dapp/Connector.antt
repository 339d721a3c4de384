-- ===== src/Dapp/Connector.antt =====
-- `balance_transaction` of src/noxipher/dapp/connector.py. It changes the transaction in place:
-- the transaction after the call comes with the result, also when the call raises.
use noxipher.Prelude.{
  ℕ, ◌+◌, ◌-◌, Bool, ◌&&◌, ◌||◌, not, List, [], ◌∷◌, ◌++◌, Option, none, some, list_eq, ltb, leb,
  ◌==◌, if◌then◌else◌,
}
use noxipher.Core.Exceptions.{Result, ok, err, transaction_error}
use noxipher.Wallet.Hex.{hex, zeros_hex}
use noxipher.Wallet.Utxo.{Utxo, u_token, i_hash, o_no, sort_largest_first}
use noxipher.Tx.Structures.{UtxoSpend, UtxoOutput, UnshieldedOffer, ContractAction}
use noxipher.Tx.Builder.{spend_of}

-- An intent before it is bound. An empty dict in the place of an intent or an offer is `none`.
pub record DraftIntent : Type 0 where
  pub guaranteed_unshielded_offer : Option UnshieldedOffer
  pub ttl : Option ℕ
  pub actions : List ContractAction

-- The intents under the keys "0" and 0, the only ones that are read or written. The transaction is
-- what stands under "standard", or the dict itself.
pub record UnboundTransaction : Type 0 where
  pub text_0 : Option DraftIntent
  pub int_0 : Option DraftIntent

-- `sum(int(i["value"]) for i in inputs)`
abbrev pub inputs_val : List UtxoSpend → ℕ
inputs_val [] = 0
inputs_val (i ∷ is) = i.value + inputs_val is

abbrev pub outputs_val : List UtxoOutput → ℕ
outputs_val [] = 0
outputs_val (o ∷ os) = o.value + outputs_val os

-- `(i_hash, o_no) in used_outpoints`
unfoldable pub is_used : List UtxoSpend → Utxo → Bool
is_used [] utxo = Bool.false
is_used (i ∷ is) utxo =
    list_eq (hex i.intent_hash) (i_hash utxo) && i.output_no == o_no utxo || is_used is utxo

unfoldable pub unused_night : List UtxoSpend → List Utxo → List Utxo
unused_night inputs [] = []
unused_night inputs (utxo ∷ utxos) =
    let rest = unused_night inputs utxos in
    if not (is_used inputs utxo) && list_eq (u_token utxo) zeros_hex then utxo ∷ rest else rest

-- The loop that appends inputs, and the value that it added. A UTXO without a value or with a hash
-- that is not hex makes it raise, with the inputs before it appended.
unfoldable pub add_inputs :
    List ℕ → ℕ → ℕ → List UtxoSpend → ℕ → List Utxo → List UtxoSpend × Result ℕ
add_inputs public_key required before inputs added_val [] = (inputs, ok added_val)
add_inputs public_key required before inputs added_val (utxo ∷ utxos) =
    elim (spend_of public_key utxo) [
      | err e ↦ (inputs, err e)
      | ok spend ↦
          let inputs' = inputs ++ (spend ∷ []) in
          let added = added_val + spend.value in
          let rest = add_inputs public_key required before inputs' added utxos in
          if leb required (before + added) then (inputs', ok added) else rest
    ]

-- The change is paid to the wallet.
unfoldable pub add_change : List ℕ → ℕ → ℕ → List UtxoOutput → List UtxoOutput
add_change public_key required total outputs =
    if ltb required total
    then outputs ++ (record { value = total - required; owner = public_key; type_ = 0 } ∷ [])
    else outputs

-- What follows the loop.
unfoldable pub close_offer :
    List ℕ → ℕ → UnshieldedOffer → List UtxoSpend × Result ℕ → UnshieldedOffer × Result (Unit {0})
close_offer public_key required offer (inputs, err e) = (record offer { inputs = inputs }, err e)
close_offer public_key required offer (inputs, ok added) =
    let total = inputs_val offer.inputs + added in
    if ltb total required then (record offer { inputs = inputs }, err transaction_error) else (
      record offer {
        inputs = inputs;
        outputs = add_change public_key required total offer.outputs;
      },
      ok tt,
    )

-- The indexer is asked only when the inputs are not enough.
unfoldable pub balance_offer :
    List ℕ → ℕ → Result (List Utxo) → UnshieldedOffer → UnshieldedOffer × Result (Unit {0})
balance_offer public_key fee utxos offer =
    let required = outputs_val offer.outputs + fee in
    let fetched : List UtxoSpend × Result ℕ = elim utxos [
      | err e ↦ (offer.inputs, err e)
      | ok us ↦
          add_inputs public_key required (inputs_val offer.inputs) offer.inputs 0
            (sort_largest_first (unused_night offer.inputs us))
    ] in
    close_offer public_key required offer
      (if ltb (inputs_val offer.inputs) required then fetched else (offer.inputs, ok 0))

abbrev pub empty_offer : UnshieldedOffer
empty_offer = record { inputs = []; outputs = []; signatures = [] }

unfoldable pub offer_or_empty : Option UnshieldedOffer → UnshieldedOffer
offer_or_empty none = empty_offer
offer_or_empty (some offer) = offer

-- The TTL is set when the offer is balanced.
unfoldable pub balance_intent :
    List ℕ → ℕ → ℕ → Result (List Utxo) → DraftIntent → DraftIntent × Result (Unit {0})
balance_intent public_key fee ttl_seconds utxos intent =
    let (offer, result) =
      balance_offer public_key fee utxos (offer_or_empty intent.guaranteed_unshielded_offer) in
    elim result [
      | err e ↦ (record intent { guaranteed_unshielded_offer = some offer }, err e)
      | ok u ↦ (
        record intent { guaranteed_unshielded_offer = some offer; ttl = some ttl_seconds },
        ok tt,
      )
    ]

unfoldable pub balance_transaction :
    List ℕ
    → ℕ
    → ℕ
    → Result (List Utxo)
    → UnboundTransaction
    → UnboundTransaction × Result (Unit {0})
balance_transaction public_key fee ttl_seconds utxos tx =
    let fresh : DraftIntent = record {
      guaranteed_unshielded_offer = none;
      ttl = some ttl_seconds;
      actions = [];
    } in
    let balance = balance_intent public_key fee ttl_seconds utxos in
    elim tx.text_0 [
      | some intent ↦ (record tx { text_0 = some (balance intent).0 }, (balance intent).1)
      | none ↦ elim tx.int_0 [
        | some intent ↦ (record tx { int_0 = some (balance intent).0 }, (balance intent).1)
        | none ↦ (record tx { text_0 = some (balance fresh).0 }, (balance fresh).1)
      ]
    ]
