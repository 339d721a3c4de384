-- ===== src/Tx/Envelope.antt =====
-- The first half of `_serialize_transaction` of src/noxipher/tx/builder.py: the envelope, the
-- contract action, the shielded offer and the binding randomness. A dict with fixed keys is a
-- record, a key that may be missing an Option; a segment's key is the number that its text writes.
use noxipher.Prelude.{
  ℕ, List, [], ◌∷◌, Option, none, some, Bool, list_eq, replicate, ◌==◌, if◌then◌else◌,
}
use noxipher.Prelude.Integers.{ℤ}
use noxipher.Core.Exceptions.{Result, ok, err, ◌>>=◌, key_error, attribute_error, or_key_error}
use noxipher.Wallet.Hex.{fromhex}
use noxipher.Tx.Builder.{commitment_to}
use noxipher.Tx.Structures.{ContractAction, deploy, call, Intent, ZswapOffer}
use noxipher.Tx.Transaction.{Argument, bytes_, serialize_contract_args, Segments}

-- The types that are told apart.
pub data TxKind : Type 0 where
  contract_deploy contract_call shielded_transfer other_kind : TxKind

pub data ProofItem : Type 0 where
  hex_text raw_bytes : List ℕ → ProofItem

-- `proof_hexes`: the dict that is read here, or the list that the prover gives.
pub data ProofHexes : Type 0 where
  missing : ProofHexes
  listed : List (List ℕ) → ProofHexes
  by_role : (spends outputs : Option (List ProofItem)) → ProofHexes

pub record StandardDict : Type 0 where
  pub network_id : List ℕ
  pub intents : Segments Intent
  pub fallible_coins : Option (Segments ZswapOffer)
  pub binding_randomness : Option (List ℕ)

pub record TxData : Type 0 where
  pub kind : TxKind
  pub standard : Option StandardDict
  pub ttl : Option ℕ
  pub fee : Option ℤ
  pub bytecode : Option (List ℕ)
  pub initial_state : Option Argument
  pub contract_address : Option (List ℕ)
  pub entry_point : Option (List ℕ)
  pub args : Option Argument
  pub proof_hexes : ProofHexes
  pub merkle_root : Option (List ℕ)
  pub requires_unshielded_signature : Bool

-- `d.get(key, default)`
abbrev pub get_default {ℓ} : {A : Type ℓ} → Option A → A → A
get_default none default = default
get_default (some value) default = value

abbrev pub zeros32 : List ℕ
zeros32 = replicate 32 0

unfoldable pub default_standard : List ℕ → Option ℕ → StandardDict
default_standard network_name ttl = record {
  network_id = network_name;
  intents =
      (
        0,
        record {
          guaranteed_unshielded_offer =
              some (record { inputs = []; outputs = []; signatures = [] });
          fallible_unshielded_offer = none;
          ttl = get_default ttl 1800;
          actions = [];
          binding_commitment = zeros32;
        },
      )
      ∷ [];
  fallible_coins = none;
  binding_randomness = some zeros32;
}

unfoldable pub standard_or_default : List ℕ → TxData → StandardDict
standard_or_default network_name tx = get_default tx.standard (default_standard network_name tx.ttl)

unfoldable pub deploy_action : TxData → Result ContractAction
deploy_action tx = do
  bytecode ← or_key_error tx.bytecode
  state ← serialize_contract_args (get_default tx.initial_state (bytes_ []))
  ok (deploy bytecode state)

unfoldable pub call_action : TxData → Result ContractAction
call_action tx = do
  address_hex ← or_key_error tx.contract_address
  address ← fromhex address_hex
  entry_point ← or_key_error tx.entry_point
  args ← serialize_contract_args (get_default tx.args (bytes_ []))
  ok (call address entry_point args)

-- `intents["0"]` changed in place; KeyError where there is none.
unfoldable pub change_intent : (Intent → Intent) → Segments Intent → Result (Segments Intent)
change_intent change [] = err key_error
change_intent change ((key, intent) ∷ intents) =
    let rest = change_intent change intents in
    if key == 0
    then ok ((key, change intent) ∷ intents)
    else rest >>= λ changed. ok ((key, intent) ∷ changed)

unfoldable pub place_action : ContractAction → StandardDict → Result StandardDict
place_action action stx = do
  intents ← change_intent (λ intent. record intent { actions = action ∷ [] }) stx.intents
  ok (record stx { intents = intents })

unfoldable pub proof_bytes : ProofItem → Result (List ℕ)
proof_bytes (hex_text text) = fromhex text
proof_bytes (raw_bytes bytes) = ok bytes

unfoldable pub all_proof_bytes : List ProofItem → Result (List (List ℕ))
all_proof_bytes [] = ok []
all_proof_bytes (item ∷ items) = do
  proof ← proof_bytes item
  proofs ← all_proof_bytes items
  ok (proof ∷ proofs)

-- `.get("spends", [])` and `.get("outputs", [])`: a list has no `get`.
unfoldable pub proofs_by_role : ProofHexes → Result (List (List ℕ) × List (List ℕ))
proofs_by_role missing = ok ([], [])
proofs_by_role (listed hexes) = err attribute_error
proofs_by_role (by_role spends outputs) = do
  spend_proofs ← all_proof_bytes (get_default spends [])
  output_proofs ← all_proof_bytes (get_default outputs [])
  ok (spend_proofs, output_proofs)

-- An assignment to a key of a dict.
unfoldable pub put_segment {ℓ} : {A : Type ℓ} → ℕ → A → Segments A → Segments A
put_segment key value [] = (key, value) ∷ []
put_segment key value ((k, v) ∷ rest) =
    let kept = (k, v) ∷ put_segment key value rest in if k == key then (k, value) ∷ rest else kept

unfoldable pub place_proofs : TxData → StandardDict → Result StandardDict
place_proofs tx stx = do
  (spend_proofs, output_proofs) ← proofs_by_role tx.proof_hexes
  let offer : ZswapOffer = record {
    spend_proofs = spend_proofs;
    output_proofs = output_proofs;
    zswap_memos = [];
    merkle_root = some (get_default tx.merkle_root zeros32);
  }
  ok (record stx {
    fallible_coins = some (put_segment 0 offer (get_default stx.fallible_coins []));
  })

-- "Handle contract deployment/call/shielded special structuring", by the type.
unfoldable pub structure_by : TxKind → List ℕ → TxData → Result (Option StandardDict)
structure_by contract_deploy network_name tx = do
  action ← deploy_action tx
  stx ← place_action action (standard_or_default network_name tx)
  ok (some stx)
structure_by contract_call network_name tx = do
  action ← call_action tx
  stx ← place_action action (standard_or_default network_name tx)
  ok (some stx)
structure_by shielded_transfer network_name tx = do
  stx ← place_proofs tx (standard_or_default network_name tx)
  ok (some stx)
structure_by other_kind network_name tx = ok tx.standard

-- `if "0" in intents:` set its commitment.
unfoldable pub commit_intent : List ℕ → Segments Intent → Segments Intent
commit_intent commitment [] = []
commit_intent commitment ((key, intent) ∷ intents) =
    let kept = (key, intent) ∷ commit_intent commitment intents in
    if key == 0 then (key, record intent { binding_commitment = commitment }) ∷ intents else kept

-- `rnd` is what `secrets` gives.
unfoldable pub finalize_binding : List ℕ → ℤ → StandardDict → StandardDict
finalize_binding rnd fee stx =
    if list_eq (get_default stx.binding_randomness zeros32) zeros32
    then record stx {
      binding_randomness = some rnd;
      intents = commit_intent (commitment_to rnd fee) stx.intents;
    }
    else stx

unfoldable pub finalize_option : List ℕ → ℤ → Option StandardDict → Option StandardDict
finalize_option rnd fee none = none
finalize_option rnd fee (some stx) = some (finalize_binding rnd fee stx)
