-- ===== src/Tx/Structures.antt =====
-- The structures of src/noxipher/tx/scale.py, from the UTXO to the transaction. A dict with fixed
-- keys is a record, a key that may be missing an Option.
use noxipher.Prelude.{
  ℕ, ◌-◌, List, [], ◌∷◌, ◌++◌, length, take, replicate, Option, none, some, codes,
}
use noxipher.Core.Exceptions.{Result, ok, ◌>>=◌}
use noxipher.Tx.Compact.{
  byte, encode_scale_int, serialize_u32, serialize_u128, serialize_bytes, encode_text,
  tagged_serialize,
}

pub record UtxoSpend : Type 0 where
  pub value : ℕ
  pub owner : List ℕ
  pub type_ : ℕ
  pub intent_hash : List ℕ
  pub output_no : ℕ

pub record UtxoOutput : Type 0 where
  pub value : ℕ
  pub owner : List ℕ
  pub type_ : ℕ

-- A missing list of signatures is read as an empty one.
pub record UnshieldedOffer : Type 0 where
  pub inputs : List UtxoSpend
  pub outputs : List UtxoOutput
  pub signatures : List (List ℕ)

-- Any action whose type is not "deploy" is written as a call.
pub data ContractAction : Type 0 where
  deploy : (bytecode : List ℕ) → (initial_state : List ℕ) → ContractAction
  call : (address : List ℕ) → (entry_point : List ℕ) → (args : List ℕ) → ContractAction

pub record Intent : Type 0 where
  pub guaranteed_unshielded_offer : Option UnshieldedOffer
  pub fallible_unshielded_offer : Option UnshieldedOffer
  pub ttl : ℕ
  pub actions : List ContractAction
  pub binding_commitment : List ℕ

-- A root that is given as hex is the bytes that it writes.
pub record ZswapOffer : Type 0 where
  pub spend_proofs : List (List ℕ)
  pub output_proofs : List (List ℕ)
  pub zswap_memos : List (List ℕ)
  pub merkle_root : Option (List ℕ)

unfoldable pub serialize_utxo_spend : UtxoSpend → Result (List ℕ)
serialize_utxo_spend spend = do
  value ← serialize_u128 spend.value
  kind ← byte spend.type_
  output_no ← serialize_u32 spend.output_no
  ok (value ++ spend.owner ++ kind ++ spend.intent_hash ++ output_no)

unfoldable pub serialize_utxo_output : UtxoOutput → Result (List ℕ)
serialize_utxo_output output = do
  value ← serialize_u128 output.value
  kind ← byte output.type_
  ok (value ++ output.owner ++ kind)

-- `for item in items: payload += write(item)`
unfoldable pub serialize_each {ℓ} : {A : Type ℓ} → (A → Result (List ℕ)) → List A → Result (List ℕ)
serialize_each write [] = ok []
serialize_each write (item ∷ items) = do
  front ← write item
  rest ← serialize_each write items
  ok (front ++ rest)

-- The number of the items, then the items.
unfoldable pub serialize_vec {ℓ} : {A : Type ℓ} → (A → Result (List ℕ)) → List A → Result (List ℕ)
serialize_vec write items = do
  count ← encode_scale_int (length items)
  payload ← serialize_each write items
  ok (count ++ payload)

unfoldable pub serialize_unshielded_offer : UnshieldedOffer → Result (List ℕ)
serialize_unshielded_offer offer = do
  inputs ← serialize_vec serialize_utxo_spend offer.inputs
  outputs ← serialize_vec serialize_utxo_output offer.outputs
  signatures ← serialize_vec ok offer.signatures
  ok (inputs ++ outputs ++ signatures)

unfoldable pub serialize_contract_action : ContractAction → Result (List ℕ)
serialize_contract_action (deploy bytecode initial_state) = do
  code ← serialize_bytes bytecode
  state ← serialize_bytes initial_state
  ok ((0 ∷ []) ++ code ++ state)
serialize_contract_action (call address entry_point args) = do
  ep_bytes ← encode_text entry_point
  entry ← serialize_bytes ep_bytes
  arguments ← serialize_bytes args
  ok ((1 ∷ []) ++ address ++ entry ++ arguments)

-- 1 and the offer, or 0.
unfoldable pub serialize_option_offer : Option UnshieldedOffer → Result (List ℕ)
serialize_option_offer none = ok (0 ∷ [])
serialize_option_offer (some offer) = do
  payload ← serialize_unshielded_offer offer
  ok ((1 ∷ []) ++ payload)

unfoldable pub serialize_intent : Intent → Result (List ℕ)
serialize_intent intent = do
  guaranteed ← serialize_option_offer intent.guaranteed_unshielded_offer
  fallible ← serialize_option_offer intent.fallible_unshielded_offer
  ttl ← serialize_u32 intent.ttl
  actions ← serialize_vec serialize_contract_action intent.actions
  ok (guaranteed ++ fallible ++ ttl ++ actions ++ intent.binding_commitment)

-- `root[:32].ljust(32, b"\x00")`, with the default root of zeros.
unfoldable pub root_field : Option (List ℕ) → List ℕ
root_field none = replicate 32 0
root_field (some root) = take 32 root ++ replicate (32 - length root) 0

unfoldable pub serialize_zswap_offer : ZswapOffer → Result (List ℕ)
serialize_zswap_offer offer = do
  spend_proofs ← serialize_vec ok offer.spend_proofs
  output_proofs ← serialize_vec ok offer.output_proofs
  zswap_memos ← serialize_vec ok offer.zswap_memos
  tagged_serialize (codes "zswap-offer[v1]")
      (spend_proofs ++ output_proofs ++ zswap_memos ++ root_field offer.merkle_root)
