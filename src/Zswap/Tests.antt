-- ===== src/Zswap/Tests.antt =====
-- The commitment tree and the coin state of src/noxipher/zswap on concrete inputs.
use noxipher.Prelude.{ℕ, ◌≡◌, ◌<◌, refl, List, [], ◌∷◌, none, replicate, arith}
use noxipher.Core.Exceptions.{ok}
use noxipher.Crypto.Fields.{fr_modulus, of_bytes, to_bytes}
use noxipher.Zswap.Notes.{ShieldedCoinNote, add_member}
use noxipher.Zswap.MerkleTree.{
  MerkleTree, new_tree, insert, lookup, assign, leaf_nodes, root, proof,
}
use noxipher.Zswap.Levels.{IsTree, node}
use noxipher.Zswap.Root.{new_tree-IsTree, insert-IsTree, root_lem}
use noxipher.Zswap.Membership.{climb, proof-insert}
use noxipher.Zswap.State.{ZswapState, mark_spent, get_balance}
use noxipher.Zswap.Balances.{mark_spent_removes_nothing}

abbrev leaf : ℕ → List ℕ
leaf n = replicate 32 n

abbrev one_leaf : MerkleTree
one_leaf = record (new_tree 2) { leaves = (1, leaf 7) ∷ [] }

one_leaf-inserted : insert (new_tree 2) 1 (leaf 7) ≡ ok one_leaf
unfolding insert new_tree assign
one_leaf-inserted = refl

root_lem_example : root one_leaf ≡ ok (to_bytes (node (leaf_nodes one_leaf.leaves) 2 0))
unfolding new_tree
root_lem_example =
    root_lem one_leaf
      (insert-IsTree (new_tree 2) one_leaf 1 (leaf 7) (new_tree-IsTree 2) one_leaf-inserted)

proof-insert_example :
    (path : List (List ℕ)) × (proof one_leaf 1 ≡ ok path)
    × (root one_leaf ≡ ok (to_bytes (climb (of_bytes fr_modulus (leaf 7)) 1 path)))
proof-insert_example =
    proof-insert (new_tree 2) one_leaf 1 (leaf 7) (new_tree-IsTree 2) one_leaf-inserted

two_leaves-IsTree :
    (i j a b : ℕ)
    → i < 4
    → j < 4
    → IsTree (record (new_tree 2) { leaves = (i, leaf a) ∷ (j, leaf b) ∷ [] })
unfolding new_tree
two_leaves-IsTree i j a b hi hj = record {
  zeros = (new_tree-IsTree 2).zeros;
  in_range = (hi, (hj, tt));
}

abbrev trees : MerkleTree × MerkleTree
trees = (
  record (new_tree 2) { leaves = (1, leaf 7) ∷ (2, leaf 8) ∷ [] },
  record (new_tree 2) { leaves = (2, leaf 8) ∷ (1, leaf 7) ∷ [] },
)

same_leaves : (i : ℕ) → lookup i trees.0.leaves ≡ lookup i trees.1.leaves
unfolding lookup
same_leaves i = ground arith

abbrev coin : ℕ → ShieldedCoinNote
coin index = record {
  token_type = leaf 0;
  value = 500;
  nonce = leaf 1;
  owner_pk = leaf 2;
  merkle_tree_index = index;
  tx_hash = none;
}

abbrev state : ZswapState
state = record {
  unspent_coins = coin 0 ∷ coin 1 ∷ [];
  spent_nullifiers = [];
  last_synced_height = 0;
  merkle_tree = one_leaf;
}

mark_spent_removes_nothing_example :
    ((mark_spent state (leaf 9)).unspent_coins ≡ state.unspent_coins)
    × (get_balance (mark_spent state (leaf 9)) none ≡ get_balance state none)
    × ((mark_spent state (leaf 9)).spent_nullifiers ≡ add_member (leaf 9) state.spent_nullifiers)
mark_spent_removes_nothing_example = mark_spent_removes_nothing state (leaf 9) none
