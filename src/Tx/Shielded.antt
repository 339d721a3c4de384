-- ===== src/Tx/Shielded.antt =====
-- `_build_shielded_transfer` of src/noxipher/tx/builder.py: the choice of coins and the circuits
-- that the proof server is asked for.
use noxipher.Prelude.{ℕ, ◌+◌, ◌-◌, List, [], ◌∷◌, ◌++◌, map, take, list_eq, ltb, leb, if◌then◌else◌}
use noxipher.Prelude.Digits.{from_le_bytes}
use noxipher.Core.Exceptions.{Result, ok, ◌>>=◌, ◌>>◌, raise_if, transaction_error}
use noxipher.Address.Codec.{decode_address}
use noxipher.Crypto.Fields.{fr_modulus, of_int, of_bytes, to_bytes}
use noxipher.Crypto.Poseidon.{transient_hash}
use noxipher.Wallet.Hex.{hex}
use noxipher.Wallet.Wallets.{ShieldedWallet}
use noxipher.Zswap.Notes.{ShieldedCoinNote, compute_nullifier}
use noxipher.Zswap.MerkleTree.{MerkleTree, proof, root}
use noxipher.Zswap.State.{ZswapState}

-- Texts in hex are written as such.
pub data Circuit : Type 0 where
  zswap_spend :
      (coin : ShieldedCoinNote) (sk_coin : List ℕ) (merkle_proof : List (List ℕ))
      (nullifier merkle_root : List ℕ)
      → Circuit
  zswap_output : (value : ℕ) (recipient nonce commitment : List ℕ) → Circuit

unfoldable pub eligible_coins : List ℕ → List ShieldedCoinNote → List ShieldedCoinNote
eligible_coins token_type [] = []
eligible_coins token_type (c ∷ cs) =
    let rest = eligible_coins token_type cs in
    if list_eq c.token_type token_type then c ∷ rest else rest

-- `eligible.sort(key=value, reverse=True)`
unfoldable pub insert_coin : ShieldedCoinNote → List ShieldedCoinNote → List ShieldedCoinNote
insert_coin c [] = c ∷ []
insert_coin c (t ∷ ts) = if leb t.value c.value then c ∷ t ∷ ts else t ∷ insert_coin c ts

unfoldable pub sort_coins : List ShieldedCoinNote → List ShieldedCoinNote
sort_coins [] = []
sort_coins (c ∷ cs) = insert_coin c (sort_coins cs)

unfoldable pub select_coins : ℕ → ℕ → List ShieldedCoinNote → List ShieldedCoinNote × ℕ
select_coins amount total_selected [] = ([], total_selected)
select_coins amount total_selected (coin ∷ coins) =
    let total = total_selected + coin.value in
    let (rest, final_total) = select_coins amount total coins in
    if leb amount total then (coin ∷ [], total) else (coin ∷ rest, final_total)

unfoldable pub spend_circuit : MerkleTree → List ℕ → ShieldedCoinNote → Result Circuit
spend_circuit tree secret_key coin = do
  path ← proof tree coin.merkle_tree_index
  merkle_root ← root tree
  ok (
      zswap_spend coin (hex secret_key) (map hex path)
        (hex (compute_nullifier coin (from_le_bytes secret_key))) (hex merkle_root))

unfoldable pub spend_circuits : MerkleTree → List ℕ → List ShieldedCoinNote → Result (List Circuit)
spend_circuits tree secret_key [] = ok []
spend_circuits tree secret_key (coin ∷ coins) = do
  circuit ← spend_circuit tree secret_key coin
  circuits ← spend_circuits tree secret_key coins
  ok (circuit ∷ circuits)

unfoldable pub output_circuit : List ℕ → ℕ → List ℕ → List ℕ → List ℕ → Circuit
output_circuit token_type value recipient coin_pk nonce = zswap_output value recipient (hex nonce) (
    hex (
      to_bytes (
        transient_hash (
          of_bytes fr_modulus token_type
          ∷ of_int fr_modulus value
          ∷ of_bytes fr_modulus coin_pk
          ∷ of_bytes fr_modulus nonce
          ∷ []))))

unfoldable pub change_circuits : ShieldedWallet → List ℕ → ℕ → ℕ → List ℕ → List Circuit
change_circuits wallet token_type amount total change_nonce =
    if ltb amount total
    then output_circuit token_type (total - amount) wallet.address wallet.coin_public_key
        change_nonce
      ∷ []
    else []

-- The circuits of the transfer; the two nonces are what `secrets` gives. The root is computed for
-- each spend anew, from a tree that does not change.
unfoldable pub build_shielded_transfer :
    ShieldedWallet → ZswapState → List ℕ → ℕ → List ℕ → List ℕ → List ℕ → Result (List Circuit)
build_shielded_transfer wallet state to amount token_type out_nonce change_nonce = do
  let selection = select_coins amount 0 (sort_coins (eligible_coins token_type state.unspent_coins))
  raise_if (ltb selection.1 amount) transaction_error
  spends ← spend_circuits state.merkle_tree wallet.coin_secret_key selection.0
  (_, _, payload) ← decode_address to
  ok (
      spends
      ++ (output_circuit token_type amount to (take 32 payload) out_nonce ∷ [])
      ++ change_circuits wallet token_type amount selection.1 change_nonce)
