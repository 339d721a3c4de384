-- ===== src/Zswap/Root.antt =====
-- `root` of the tree of src/noxipher/zswap/state.py, and what the operations on a tree keep.
use native.Mathlib.Nat.{le_refl, pow-suc}
use noxipher.Prelude.{
  ℕ, zero, suc, ◌+◌, ◌*◌, ◌/◌, ◌^◌, ◌≤◌, ◌<◌, ◌≡◌, refl, sym, ap, ap₂, subst, ◌∙◌, arith, Bool,
  true, false, inl, inr, List, [], ◌∷◌, map, some, get_or, All, leb, ◌==◌, Bool-cases,
  if◌then◌else◌,
}
use noxipher.Core.Exceptions.{ok, err, value_error, or_key_error, ◌>>=◌}
use noxipher.Crypto.Fields.{to_bytes}
use noxipher.Crypto.Poseidon.{transient_hash}
use noxipher.Zswap.MerkleTree.{
  lookup, assign, get, keys, MerkleTree, new_tree, insert, leaf_nodes, has_index, parent_indices,
  next_level, climb_levels, is_empty, root,
}
use noxipher.Zswap.Levels.{
  node, zero_above, zero_value, zero_above-suc, IsTree, zero_node_bytes, Stands, leaves_stand,
  next_level-Stands,
}

-- `new_tree` makes a tree, and `insert` keeps it one.
pub new_tree-IsTree : (depth : ℕ) → IsTree (new_tree depth)
unfolding new_tree
new_tree-IsTree depth = record { zeros = refl; in_range = tt }

assign_in_range :
    (bound k : ℕ) (c : List ℕ) (d : List (ℕ × List ℕ))
    → k < bound
    → All (λ i. i < bound) (keys d)
    → All (λ i. i < bound) (keys (assign k c d))
unfolding assign
assign_in_range bound k c [] h a = (h, tt)
assign_in_range bound k c ((j, w) ∷ d) h a = elim (Bool-cases (j == k)) [
  | inl same ↦ rw same (h, a.1)
  | inr other ↦ rw other (a.0, assign_in_range bound k c d h a.1)
]

pub insert-IsTree :
    (t t' : MerkleTree) (index : ℕ) (c : List ℕ) → IsTree t → insert t index c ≡ ok t' → IsTree t'
unfolding insert
insert-IsTree t t' index c w e = go (leb (2 ^ t.depth) index) refl e
  where
    t₁ : MerkleTree
    t₁ = record t { leaves = assign index c t.leaves }

    go :
        (b : Bool)
        → leb (2 ^ t.depth) index ≡ b
        → (if b then err value_error else ok t₁) ≡ ok t'
        → IsTree t'
    go true p q = absurd (cc q)
    go false p q = subst IsTree (cc q) (record {
      zeros = w.zeros;
      in_range = assign_in_range (2 ^ t.depth) index c t.leaves (ground arith) w.in_range;
    })

climb_levels_stand :
    (t : MerkleTree) (base nodes : List (ℕ × ℕ)) (count l : ℕ)
    → IsTree t
    → l + count ≤ t.depth
    → Stands base l nodes
    → Stands base (l + count) (climb_levels t count l nodes)
unfolding climb_levels
climb_levels_stand t base nodes zero l w h s =
    let e : l ≡ l + 0 = omega arith in subst (λ k. Stands base k nodes) e s
climb_levels_stand t base nodes (suc count) l w h s =
    let e : suc l + count ≡ l + suc count = omega arith in
    subst (λ k. Stands base k (climb_levels t count (suc l) (next_level t l nodes))) e
      (climb_levels_stand t base (next_level t l nodes) count (suc l) w (omega arith)
        (next_level-Stands t base nodes l w (omega arith) s))

-- The indices of a level halve.
parents_in_range :
    (count : ℕ) (is : List ℕ)
    → All (λ i. i < 2 ^ suc count) is
    → All (λ i. i < 2 ^ count) (parent_indices is)
unfolding parent_indices
parents_in_range count [] h = tt
parents_in_range count (i ∷ is) h =
    let half : i / 2 < 2 ^ count = omega (arith, h.0, pow-suc 2 count) in
    elim (Bool-cases (has_index (i / 2) (parent_indices is))) [
      | inl there ↦ rw there (parents_in_range count is h.1)
      | inr new ↦ rw new (half, parents_in_range count is h.1)
    ]

parents_some : (is : List ℕ) → is_empty is ≡ false → is_empty (parent_indices is) ≡ false
unfolding parent_indices has_index
parents_some [] h = cc
parents_some (i ∷ []) h = refl
parents_some (i ∷ j ∷ is) h = ground (arith, parents_some (j ∷ is) refl)

keys-pairs : (f : ℕ → ℕ) (is : List ℕ) → keys (map (λ p. (p, f p)) is) ≡ is
keys-pairs f [] = refl
keys-pairs f (i ∷ is) = ap (◌∷◌ i) (keys-pairs f is)

-- After all rounds the only index is 0.
climb_levels_end :
    (t : MerkleTree) (nodes : List (ℕ × ℕ)) (count l : ℕ)
    → is_empty (keys nodes) ≡ false
    → All (λ i. i < 2 ^ count) (keys nodes)
    → (v : ℕ) × (lookup 0 (climb_levels t count l nodes) ≡ some v)
unfolding climb_levels
climb_levels_end t [] zero l h a = absurd (cc h)
climb_levels_end t ((i, v) ∷ nodes) zero l h a =
    let e : (i == 0) ≡ true = ground (arith, a.0) in (v, unfold lookup in rw e)
climb_levels_end t nodes (suc count) l h a =
    let next = parent_indices (keys nodes) in
    let k : keys (next_level t l nodes) ≡ next = unfold next_level in keys-pairs _ next in
    climb_levels_end t (next_level t l nodes) count (suc l)
      (ap is_empty k ∙ parents_some (keys nodes) h)
      (subst (All (λ i. i < 2 ^ count)) (sym k) (parents_in_range count (keys nodes) a))

node_empty : (l i : ℕ) → node [] l i ≡ zero_value l
unfolding node
node_empty zero i = unfold lookup zero_above in refl
node_empty (suc l) i =
    ap₂ (λ a b. transient_hash (a ∷ b ∷ [])) (node_empty l (i * 2)) (node_empty l (i * 2 + 1))
    ∙ sym (zero_above-suc l 0)

keys-leaf_nodes : (d : List (ℕ × List ℕ)) → keys (leaf_nodes d) ≡ keys d
unfolding leaf_nodes
keys-leaf_nodes [] = refl
keys-leaf_nodes ((i, c) ∷ d) = ap (◌∷◌ i) (keys-leaf_nodes d)

-- On a tree that the constructor and insertions made, `root` does not raise, and returns the bytes
-- of the complete tree's root.
pub root_lem :
    (t : MerkleTree) → IsTree t → root t ≡ ok (to_bytes (node (leaf_nodes t.leaves) t.depth 0))
unfolding root
root_lem t w = go t.leaves refl
  where
    base : List (ℕ × ℕ)
    base = leaf_nodes t.leaves

    go :
        (d : List (ℕ × List ℕ))
        → t.leaves ≡ d
        → (if is_empty t.leaves
            then ok (get_or t.zero_nodes t.depth [])
            else or_key_error (lookup 0 (climb_levels t t.depth 0 base)) >>= λ n. ok (to_bytes n))
          ≡ ok (to_bytes (node base t.depth 0))
    go [] e =
        let b : base ≡ [] = ap leaf_nodes e ∙ unfold leaf_nodes in refl in
        rw (ap is_empty e) (
          ap ok (
            zero_node_bytes t t.depth w (le_refl t.depth)
            ∙ ap to_bytes (sym (ap (λ x. node x t.depth 0) b ∙ node_empty t.depth 0))))
    go ((i, c) ∷ d) e =
        let k : keys base ≡ keys t.leaves = keys-leaf_nodes t.leaves in
        let (v, found) =
          climb_levels_end t base t.depth 0 (ap is_empty (k ∙ ap keys e))
            (subst (All (λ i. i < 2 ^ t.depth)) (sym k) w.in_range) in
        let stands : get (lookup 0 (climb_levels t t.depth 0 base)) (zero_value t.depth)
            ≡ node base t.depth 0 =
          let z : 0 + t.depth ≡ t.depth = omega arith in
          subst (λ n. Stands base n (climb_levels t t.depth 0 base)) z
            (climb_levels_stand t base base t.depth 0 w (omega arith) (leaves_stand base)) 0 in
        rw (ap is_empty e, found)
          (ap (λ x. ok (to_bytes x)) (sym (ap (λ o. get o (zero_value t.depth)) found) ∙ stands))
