-- ===== src/Tx/Builder.antt =====
-- `_build_unshielded_transfer` of src/noxipher/tx/builder.py: the choice of UTXOs, the inputs and
-- outputs, and the transaction around them.
use noxipher.Prelude.{
  ℕ, ◌+◌, Bool, List, [], ◌∷◌, ◌++◌, Option, none, some, ltb, ◌==◌, replicate, if◌then◌else◌,
}
use noxipher.Prelude.Integers.{ℤ, pos, pos_part, neg_part, ◌+ℤ◌, ◌-ℤ◌, ltb_ℤ, leb_ℤ, eqb_ℤ}
use noxipher.Core.Exceptions.{Result, ok, err, ◌>>=◌, ◌>>◌, raise_if, transaction_error}
use noxipher.Core.Config.{NetworkConfig}
use noxipher.Address.Codec.{decode_address}
use noxipher.Crypto.Curves.{compute_binding_commitment}
use noxipher.Wallet.Hex.{fromhex}
use noxipher.Wallet.Utxo.{
  Utxo, has_token, value_or_zero, value_at, i_hash, o_no, sort_largest_first,
}
use noxipher.Wallet.Wallets.{MidnightWallet, dust_address}
use noxipher.Tx.Structures.{UtxoSpend, UtxoOutput, UnshieldedOffer, Intent}
use noxipher.Tx.Transaction.{StandardTransaction}

abbrev pub dust_threshold : ℕ
dust_threshold = 1_000

-- `RawTokenType.NATIVE_NIGHT` and `RawTokenType.DUST`.
abbrev pub native_night : List ℕ
native_night = replicate 32 0

abbrev pub dust_token : List ℕ
dust_token = 1 ∷ 0 ∷ 1 ∷ replicate 29 0

unfoldable pub eligible_utxos : List ℕ → List Utxo → List Utxo
eligible_utxos token_type [] = []
eligible_utxos token_type (utxo ∷ utxos) =
    let rest = eligible_utxos token_type utxos in
    if has_token token_type utxo then utxo ∷ rest else rest

-- Step A: the first UTXO of exactly the value that is required.
unfoldable pub exact_match : ℤ → List Utxo → Option Utxo
exact_match required [] = none
exact_match required (utxo ∷ utxos) =
    let rest = exact_match required utxos in
    if eqb_ℤ (pos (value_or_zero utxo)) required then some utxo else rest

-- Step B, on the sorted list: UTXOs until their total is enough, and that total.
unfoldable pub greedy : ℤ → ℕ → List Utxo → List Utxo × ℕ
greedy required current_total [] = ([], current_total)
greedy required current_total (utxo ∷ utxos) =
    let total = current_total + value_or_zero utxo in
    let (rest, final_total) = greedy required total utxos in
    if leb_ℤ required (pos total) then (utxo ∷ [], total) else (utxo ∷ rest, final_total)

-- An exact match has the value that is required: that is the total.
unfoldable pub select_utxos : ℤ → List Utxo → List Utxo × ℕ
select_utxos required eligible = elim (exact_match required eligible) [
  | some utxo ↦ (utxo ∷ [], value_or_zero utxo)
  | none ↦ greedy required 0 (sort_largest_first eligible)
]

unfoldable pub spend_of : List ℕ → Utxo → Result UtxoSpend
spend_of owner_pk utxo = do
  v ← value_at utxo
  hash ← fromhex (i_hash utxo)
  ok (record { value = v; owner = owner_pk; type_ = 0; intent_hash = hash; output_no = o_no utxo })

unfoldable pub spends_of : List ℕ → List Utxo → Result (List UtxoSpend)
spends_of owner_pk [] = ok []
spends_of owner_pk (utxo ∷ utxos) = do
  spend ← spend_of owner_pk utxo
  spends ← spends_of owner_pk utxos
  ok (spend ∷ spends)

-- The recipient's output, the change, and the fee with a change that is too small for an output.
unfoldable pub recipient_outputs : List ℕ → ℤ → List UtxoOutput
recipient_outputs recipient amount =
    if ltb_ℤ (pos 0) amount
    then record { value = pos_part amount; owner = recipient; type_ = 0 } ∷ []
    else []

unfoldable pub change_outputs : List ℕ → ℕ → List UtxoOutput × ℕ
change_outputs owner_pk change =
    if change == 0
    then ([], 0)
    else if ltb change dust_threshold
    then ([], change)
    else (record { value = change; owner = owner_pk; type_ = 0 } ∷ [], 0)

-- What `_build_unshielded_transfer` returns, less its constant fields.
pub record UnshieldedTransfer : Type 0 where
  pub standard : StandardTransaction
  pub fee : ℤ

-- `compute_binding_commitment(rnd, value=fee)`
unfoldable pub commitment_to : List ℕ → ℤ → List ℕ
commitment_to rnd fee =
    compute_binding_commitment rnd (ltb_ℤ fee (pos 0)) (pos_part fee + neg_part fee)

-- The parts from the selection on: `current_total` is at least `required`.
unfoldable pub assemble_transfer :
    NetworkConfig → List ℕ → List ℕ → List ℕ → ℤ → ℤ → ℕ → List UtxoSpend → ℕ → UnshieldedTransfer
assemble_transfer config rnd recipient owner_pk amount fee ttl inputs current_total =
    let (change, extra) =
      change_outputs owner_pk (pos_part (pos current_total -ℤ (amount +ℤ fee))) in
    let real_fee = fee +ℤ pos extra in
    let offer : UnshieldedOffer = record {
      inputs = inputs;
      outputs = recipient_outputs recipient amount ++ change;
      signatures = [];
    } in
    let intent : Intent = record {
      guaranteed_unshielded_offer = some offer;
      fallible_unshielded_offer = none;
      ttl = ttl;
      actions = [];
      binding_commitment = commitment_to rnd real_fee;
    } in
    record {
      standard = record {
        network_id = config.name;
        intents = (0, intent) ∷ [];
        fallible_coins = [];
        binding_randomness = rnd;
      };
      fee = real_fee;
    }

-- `except Exception as e: raise TransactionError`
unfoldable pub or_transaction_error {ℓ} : {A : Type ℓ} → Result A → Result A
or_transaction_error (ok a) = ok a
or_transaction_error (err e) = err transaction_error

unfoldable pub fee_or_min : NetworkConfig → Option ℤ → ℤ
fee_or_min config none = pos config.min_fee
fee_or_min config (some fee) = fee

-- The indexer answers with the UTXOs of an address, `rnd` is what `secrets` gives.
module _ (config : NetworkConfig) (get_utxos : List ℕ → Result (List Utxo)) (rnd : List ℕ) where
  -- With the tokens of which wallet the transfer is paid, and its key.
  unfoldable pub wallet_utxos : MidnightWallet → Bool → Result (List Utxo)
  wallet_utxos wallet use_dust =
      if use_dust
      then dust_address wallet.dust >>= get_utxos
      else get_utxos wallet.unshielded.address

  unfoldable pub build_unshielded_transfer :
      MidnightWallet → List ℕ → ℤ → Option ℤ → ℕ → List ℕ → Bool → Result UnshieldedTransfer
  build_unshielded_transfer wallet to_address amount fee ttl token_type use_dust = do
    (_, _, recipient) ← or_transaction_error (decode_address to_address)
    utxos ← wallet_utxos wallet use_dust
    let token = if use_dust then dust_token else token_type
    let owner_pk = if use_dust then wallet.dust.public_key else wallet.unshielded.public_key
    let real_fee = fee_or_min config fee
    let required = amount +ℤ real_fee
    let selection = select_utxos required (eligible_utxos token utxos)
    raise_if (ltb_ℤ (pos selection.1) required) transaction_error
    inputs ← spends_of owner_pk selection.0
    ok (assemble_transfer config rnd recipient owner_pk amount real_fee ttl inputs selection.1)
