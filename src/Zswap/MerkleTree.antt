-- ===== src/Zswap/MerkleTree.antt =====
-- `MerkleTree` of src/noxipher/zswap/state.py. A dict from numbers is an association list in
-- insertion order; indices are not negative.
use noxipher.Prelude.{
  ℕ, zero, suc, ◌+◌, ◌-◌, ◌*◌, ◌/◌, ◌%◌, ◌^◌, Bool, true, false, ◌||◌, List, [], ◌∷◌, map, Option,
  none, some, replicate, get_or, leb, ◌==◌, if◌then◌else◌,
}
use noxipher.Core.Exceptions.{Result, ok, err, value_error, or_key_error, ◌>>=◌}
use noxipher.Crypto.Fields.{fr_modulus, of_bytes, to_bytes}
use noxipher.Crypto.Poseidon.{transient_hash}

module _ {ℓ} {V : Type ℓ} where
  unfoldable pub lookup : ℕ → List (ℕ × V) → Option V
  lookup k [] = none
  lookup k ((j, v) ∷ d) = if j == k then some v else lookup k d

  -- `d[k] = v`
  unfoldable pub assign : ℕ → V → List (ℕ × V) → List (ℕ × V)
  assign k v [] = (k, v) ∷ []
  assign k v ((j, w) ∷ d) = if j == k then (k, v) ∷ d else (j, w) ∷ assign k v d

abbrev pub get {ℓ} : {V : Type ℓ} → Option V → V → V
get none d = d
get (some v) d = v

abbrev pub keys {ℓ} : {V : Type ℓ} → List (ℕ × V) → List ℕ
keys d = map (λ e. e.0) d

pub record MerkleTree : Type 0 where
  pub depth : ℕ
  pub leaves : List (ℕ × List ℕ)
  pub zero_nodes : List (List ℕ)

abbrev pub zero_leaf : List ℕ
zero_leaf = replicate 32 0

-- `_precompute_zero_nodes`: the nodes from `z` up over `count` levels.
unfoldable pub zeros_from : ℕ → List ℕ → List (List ℕ)
zeros_from zero z = z ∷ []
zeros_from (suc count) z =
    let f_val = of_bytes fr_modulus z in
    z ∷ zeros_from count (to_bytes (transient_hash (f_val ∷ f_val ∷ [])))

unfoldable pub new_tree : ℕ → MerkleTree
new_tree depth = record { depth = depth; leaves = []; zero_nodes = zeros_from depth zero_leaf }

unfoldable pub insert : MerkleTree → ℕ → List ℕ → Result MerkleTree
insert t index commitment =
    if leb (2 ^ t.depth) index
    then err value_error
    else ok (record t { leaves = assign index commitment t.leaves })

-- `Fr.from_le_bytes(self._zero_nodes[level])`
unfoldable pub zero_at : MerkleTree → ℕ → ℕ
zero_at t level = of_bytes fr_modulus (get_or t.zero_nodes level [])

-- The nodes of the lowest level.
unfoldable pub leaf_nodes : List (ℕ × List ℕ) → List (ℕ × ℕ)
leaf_nodes [] = []
leaf_nodes ((i, c) ∷ d) = (i, of_bytes fr_modulus c) ∷ leaf_nodes d

-- The parent of the two children of `p_idx`, where a missing one is `zero_val`.
unfoldable pub parent : List (ℕ × ℕ) → ℕ → ℕ → ℕ
parent nodes zero_val p_idx =
    let left_idx = p_idx * 2 in
    transient_hash
      (get (lookup left_idx nodes) zero_val ∷ get (lookup (left_idx + 1) nodes) zero_val ∷ [])

unfoldable pub has_index : ℕ → List ℕ → Bool
has_index i [] = false
has_index i (j ∷ js) = j == i || has_index i js

-- `{i // 2 for i in current_nodes.keys()}`
unfoldable pub parent_indices : List ℕ → List ℕ
parent_indices [] = []
parent_indices (i ∷ is) =
    let rest = parent_indices is in if has_index (i / 2) rest then rest else i / 2 ∷ rest

-- One round of the loop of `root`.
unfoldable pub next_level : MerkleTree → ℕ → List (ℕ × ℕ) → List (ℕ × ℕ)
next_level t level nodes =
    map (λ p. (p, parent nodes (zero_at t level) p)) (parent_indices (keys nodes))

-- `count` rounds from `level` on.
unfoldable pub climb_levels : MerkleTree → ℕ → ℕ → List (ℕ × ℕ) → List (ℕ × ℕ)
climb_levels t zero level nodes = nodes
climb_levels t (suc count) level nodes = climb_levels t count (suc level) (next_level t level nodes)

abbrev pub is_empty {ℓ} : {A : Type ℓ} → List A → Bool
is_empty [] = true
is_empty (x ∷ xs) = false

unfoldable pub root : MerkleTree → Result (List ℕ)
root t =
    if is_empty t.leaves
    then ok (get_or t.zero_nodes t.depth [])
    else or_key_error (lookup 0 (climb_levels t t.depth 0 (leaf_nodes t.leaves))) >>= λ node.
        ok (to_bytes node)

-- The inner loop of `proof` over the indices of a level, on the next level's nodes.
unfoldable pub fill_level : List (ℕ × ℕ) → ℕ → List ℕ → List (ℕ × ℕ) → List (ℕ × ℕ)
fill_level nodes zero_val [] next = next
fill_level nodes zero_val (idx ∷ is) next =
    let p_idx = idx / 2 in
    fill_level nodes zero_val is (
      if has_index p_idx (keys next) then next else assign p_idx (parent nodes zero_val p_idx) next)

-- `sibling_idx`
unfoldable pub sibling : ℕ → ℕ
sibling i = if i % 2 == 0 then i + 1 else i - 1

-- The levels that `proof` builds and the path that it reads off, level by level: a level is read
-- only after it is complete.
unfoldable pub path_from : MerkleTree → ℕ → ℕ → List (ℕ × ℕ) → ℕ → List (List ℕ)
path_from t zero level nodes curr = []
path_from t (suc count) level nodes curr =
    let zero_val = zero_at t level in
    to_bytes (get (lookup (sibling curr) nodes) zero_val)
    ∷ path_from t count (suc level) (fill_level nodes zero_val (keys nodes) []) (curr / 2)

unfoldable pub proof : MerkleTree → ℕ → Result (List (List ℕ))
proof t index =
    if leb (2 ^ t.depth) index
    then err value_error
    else ok (path_from t t.depth 0 (leaf_nodes t.leaves) index)
