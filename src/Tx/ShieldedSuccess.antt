-- ===== src/Tx/ShieldedSuccess.antt =====
-- When `_build_shielded_transfer` of src/noxipher/tx/builder.py succeeds.
use noxipher.Prelude.{
  ℕ, ◌+◌, ◌≤◌, ◌<◌, ◌^◌, ◌≡◌, refl, arith, inl, inr, false, List, [], ◌∷◌, ◌++◌, map, take, list_eq,
  ltb, leb, Bool-cases, All,
}
use noxipher.Prelude.Digits.{from_le_bytes}
use noxipher.Core.Exceptions.{ok}
use noxipher.Core.Config.{Network}
use noxipher.Address.Codec.{decode_address}
use noxipher.Crypto.Fields.{to_bytes}
use noxipher.Zswap.Notes.{ShieldedCoinNote, compute_nullifier}
use noxipher.Zswap.MerkleTree.{MerkleTree, leaf_nodes, path_from, proof}
use noxipher.Zswap.Levels.{IsTree, node}
use noxipher.Zswap.Root.{root_lem}
use noxipher.Zswap.State.{ZswapState}
use noxipher.Zswap.Balances.{total_of}
use noxipher.Wallet.Hex.{hex}
use noxipher.Wallet.Wallets.{ShieldedWallet}
use noxipher.Tx.Shielded.{
  Circuit, zswap_spend, eligible_coins, insert_coin, sort_coins, select_coins, spend_circuit,
  spend_circuits, output_circuit, change_circuits, build_shielded_transfer,
}
use noxipher.Tx.ShieldedConservation.{coins_value, sort_coins-value, eligible_coins-value}

-- The coin's leaf is one of the tree's.
abbrev pub IsInside : MerkleTree → ShieldedCoinNote → Type 0
IsInside tree coin = coin.merkle_tree_index < 2 ^ tree.depth

module _ (tree : MerkleTree) where
  eligible-All :
      (token : List ℕ) (cs : List ShieldedCoinNote)
      → All (IsInside tree) cs
      → All (IsInside tree) (eligible_coins token cs)
  unfolding eligible_coins
  eligible-All token [] h = tt
  eligible-All token (c ∷ cs) (h, hs) = elim (Bool-cases (list_eq c.token_type token)) [
    | inl e ↦ rw e (h, eligible-All token cs hs)
    | inr e ↦ rw e (eligible-All token cs hs)
  ]

  insert-All :
      (c : ShieldedCoinNote) (cs : List ShieldedCoinNote)
      → IsInside tree c
      → All (IsInside tree) cs
      → All (IsInside tree) (insert_coin c cs)
  unfolding insert_coin
  insert-All c [] h hs = (h, tt)
  insert-All c (t ∷ cs) h (ht, hs) = elim (Bool-cases (leb t.value c.value)) [
    | inl e ↦ rw e (h, (ht, hs))
    | inr e ↦ rw e (ht, insert-All c cs h hs)
  ]

  sort-All :
      (cs : List ShieldedCoinNote) → All (IsInside tree) cs → All (IsInside tree) (sort_coins cs)
  unfolding sort_coins
  sort-All [] h = tt
  sort-All (c ∷ cs) (h, hs) = insert-All c (sort_coins cs) h (sort-All cs hs)

  select-All :
      (amount acc : ℕ) (cs : List ShieldedCoinNote)
      → All (IsInside tree) cs
      → All (IsInside tree) (select_coins amount acc cs).0
  unfolding select_coins
  select-All amount acc [] h = tt
  select-All amount acc (c ∷ cs) (h, hs) = elim (Bool-cases (leb amount (acc + c.value))) [
    | inl e ↦ rw e (h, tt)
    | inr e ↦ rw e (h, select-All amount (acc + c.value) cs hs)
  ]

  proof-ok : (i : ℕ) → i < 2 ^ tree.depth → (path : List (List ℕ)) × (proof tree i ≡ ok path)
  unfolding proof
  proof-ok i h =
      let inside : leb (2 ^ tree.depth) i ≡ false = ground (arith, h) in
      (path_from tree tree.depth 0 (leaf_nodes tree.leaves) i, rw inside refl)

  spend_circuits-ok :
      (sk : List ℕ) (cs : List ShieldedCoinNote)
      → IsTree tree
      → All (IsInside tree) cs
      → (circuits : List Circuit) × (spend_circuits tree sk cs ≡ ok circuits)
  unfolding spend_circuits spend_circuit
  spend_circuits-ok sk [] w h = ([], refl)
  spend_circuits-ok sk (c ∷ cs) w (h, hs) =
      let (path, e) = proof-ok c.merkle_tree_index h in
      let r = to_bytes (node (leaf_nodes tree.leaves) tree.depth 0) in
      let (rest, f) = spend_circuits-ok sk cs w hs in
      (
        zswap_spend c (hex sk) (map hex path) (hex (compute_nullifier c (from_le_bytes sk))) (hex r)
            ∷ rest,
        rw (e, root_lem tree w, f) refl,
      )

select_coins-enough :
    (amount acc : ℕ) (cs : List ShieldedCoinNote)
    → amount ≤ acc + coins_value cs
    → amount ≤ (select_coins amount acc cs).1
unfolding select_coins
select_coins-enough amount acc [] h = omega arith
select_coins-enough amount acc (c ∷ cs) h = elim (Bool-cases (leb amount (acc + c.value))) [
  | inl e ↦ rw e (ground (arith, e))
  | inr e ↦ rw e (select_coins-enough amount (acc + c.value) cs (omega arith))
]

-- When the unspent coins of the token are worth the amount, their leaves are inside a tree that
-- the constructor and insertions made, and the recipient's address decodes, the transfer is built.
pub build_shielded_transfer_succeeds :
    (wallet : ShieldedWallet) (state : ZswapState) (to : List ℕ) (amount : ℕ)
    (token_type out_nonce change_nonce : List ℕ) (decoded : List ℕ × Network × List ℕ)
    → IsTree state.merkle_tree
    → All (IsInside state.merkle_tree) state.unspent_coins
    → amount ≤ total_of token_type state.unspent_coins
    → decode_address to ≡ ok decoded
    → (circuits : List Circuit) × (build_shielded_transfer wallet state to amount token_type
          out_nonce change_nonce
        ≡ ok circuits)
unfolding build_shielded_transfer
build_shielded_transfer_succeeds wallet state to amount token_type out_nonce change_nonce decoded w
      inside h d =
    let tree = state.merkle_tree in
    let eligible = eligible_coins token_type state.unspent_coins in
    let chosen = sort_coins eligible in
    let selection = select_coins amount 0 chosen in
    let enough : amount ≤ selection.1 = select_coins-enough amount 0 chosen (
      omega
        (arith, sort_coins-value eligible, eligible_coins-value token_type state.unspent_coins)) in
    let not_short : ltb selection.1 amount ≡ false = ground (arith, enough) in
    let (spends, e) = spend_circuits-ok tree wallet.coin_secret_key selection.0 w (
      select-All tree amount 0 chosen
        (sort-All tree eligible (eligible-All tree token_type state.unspent_coins inside))) in
    (
      spends
          ++ (output_circuit token_type amount to (take 32 decoded.2) out_nonce ∷ [])
          ++ change_circuits wallet token_type amount selection.1 change_nonce,
      rw (not_short, e, d) refl,
    )
