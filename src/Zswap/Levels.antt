-- ===== src/Zswap/Levels.antt =====
-- The sparse levels that `MerkleTree` builds stand for the complete tree.
use noxipher.Prelude.{
  ℕ, zero, suc, ◌+◌, ◌*◌, ◌/◌, ◌^◌, ◌≤◌, ◌<◌, ◌≡◌, refl, sym, ap, ap₂, ◌∙◌, arith, Bool, true,
  false, ◌||◌, inl, inr, List, [], ◌∷◌, map, none, some, get_or, All, ◌==◌, Bool-cases,
  if◌then◌else◌,
}
use noxipher.Prelude.Digits.{le_bytes}
use noxipher.Crypto.Fields.{fr_modulus, of_bytes, to_bytes, of_bytes-to_bytes}
use noxipher.Crypto.Poseidon.{transient_hash, transient_hash-lt}
use noxipher.Zswap.MerkleTree.{
  lookup, assign, get, keys, MerkleTree, zero_leaf, zeros_from, zero_at, parent, has_index,
  parent_indices, next_level, fill_level,
}

-- The node of the complete binary tree over `base`: index `i` on the level `l`.
unfoldable pub node : List (ℕ × ℕ) → ℕ → ℕ → ℕ
node base zero i = get (lookup i base) 0
node base (suc l) i = transient_hash (node base l (i * 2) ∷ node base l (i * 2 + 1) ∷ [])

-- The root of an empty tree of `l` levels over leaves `v`.
unfoldable pub zero_above : ℕ → ℕ → ℕ
zero_above zero v = v
zero_above (suc l) v = zero_above l (transient_hash (v ∷ v ∷ []))

abbrev pub zero_value : ℕ → ℕ
zero_value l = zero_above l 0

pub zero_above-suc :
    (l v : ℕ) → zero_above (suc l) v ≡ transient_hash (zero_above l v ∷ zero_above l v ∷ [])
unfolding zero_above
zero_above-suc zero v = refl
zero_above-suc (suc l) v = zero_above-suc l (transient_hash (v ∷ v ∷ []))

-- `_precompute_zero_nodes` has the bytes of these roots.
zeros_from_lem :
    (n k v : ℕ)
    → k ≤ n
    → v < fr_modulus
    → get_or (zeros_from n (to_bytes v)) k [] ≡ to_bytes (zero_above k v)
unfolding zeros_from zero_above
zeros_from_lem zero zero v h p = refl
zeros_from_lem zero (suc k) v h p = absurd (omega arith)
zeros_from_lem (suc n) zero v h p = refl
zeros_from_lem (suc n) (suc k) v h p =
    let f = of_bytes-to_bytes fr_modulus v p (omega arith) in
    ap (λ t. get_or (zeros_from n (to_bytes (transient_hash (t ∷ t ∷ [])))) k []) f
    ∙ zeros_from_lem n k (transient_hash (v ∷ v ∷ [])) (omega arith) (transient_hash-lt _)

-- What the constructor and `insert` establish.
pub record IsTree (t : MerkleTree) : Type 0 where
  pub zeros : t.zero_nodes ≡ zeros_from t.depth zero_leaf
  pub in_range : All (λ i. i < 2 ^ t.depth) (keys t.leaves)

zero_leaf_bytes : zero_leaf ≡ to_bytes 0
unfolding to_bytes
zero_leaf_bytes = unfold le_bytes in refl

pub zero_node_bytes :
    (t : MerkleTree) (l : ℕ)
    → IsTree t
    → l ≤ t.depth
    → get_or t.zero_nodes l [] ≡ to_bytes (zero_value l)
zero_node_bytes t l w h =
    ap (λ z. get_or z l []) (w.zeros ∙ ap (zeros_from t.depth) zero_leaf_bytes)
    ∙ zeros_from_lem t.depth l 0 h (omega arith)

zero_above-lt : (l v : ℕ) → v < fr_modulus → zero_above l v < fr_modulus
unfolding zero_above
zero_above-lt zero v h = h
zero_above-lt (suc l) v h = zero_above-lt l _ (transient_hash-lt _)

pub zero_at_lem : (t : MerkleTree) (l : ℕ) → IsTree t → l ≤ t.depth → zero_at t l ≡ zero_value l
unfolding zero_at
zero_at_lem t l w h =
    ap (of_bytes fr_modulus) (zero_node_bytes t l w h)
    ∙ of_bytes-to_bytes fr_modulus _ (zero_above-lt l 0 (omega arith)) (omega arith)

-- The nodes of a level, where a missing one is the root of an empty tree.
abbrev pub Stands : List (ℕ × ℕ) → ℕ → List (ℕ × ℕ) → Type 0
Stands base l nodes = (i : ℕ) → get (lookup i nodes) (zero_value l) ≡ node base l i

pub leaves_stand : (base : List (ℕ × ℕ)) → Stands base 0 base
unfolding node zero_above
leaves_stand base i = refl

-- Whether some index of the list has the parent `p`.
unfoldable pub has_child : ℕ → List ℕ → Bool
has_child p [] = false
has_child p (i ∷ is) = i / 2 == p || has_child p is

childless :
    (p : ℕ) (nodes : List (ℕ × ℕ))
    → has_child p (keys nodes) ≡ false
    → (lookup (p * 2) nodes ≡ none) × (lookup (p * 2 + 1) nodes ≡ none)
unfolding has_child lookup
childless p [] h = (refl, refl)
childless p ((i, v) ∷ nodes) h = ground (arith, childless p nodes)

-- A level that has exactly the parents of the level below stands for the next level.
pub parents_stand :
    (base nodes next : List (ℕ × ℕ)) (l z : ℕ)
    → z ≡ zero_value l
    → Stands base l nodes
    → ((p : ℕ)
        → lookup p next ≡ (if has_child p (keys nodes) then some (parent nodes z p) else none))
    → Stands base (suc l) next
unfolding node parent
parents_stand base nodes next l z e s h p = elim (Bool-cases (has_child p (keys nodes))) [
  | inl some_child ↦
      rw (h p, some_child, e) (ap₂ (λ a b. transient_hash (a ∷ b ∷ [])) (s (p * 2)) (s (p * 2 + 1)))
  | inr none_child ↦
      let (left, right) = childless p nodes none_child in
      let l_zero : zero_value l ≡ node base l (p * 2) =
        ap (λ o. get o (zero_value l)) (sym left) ∙ s (p * 2) in
      let r_zero : zero_value l ≡ node base l (p * 2 + 1) =
        ap (λ o. get o (zero_value l)) (sym right) ∙ s (p * 2 + 1) in
      rw (h p, none_child)
        (zero_above-suc l 0 ∙ ap₂ (λ a b. transient_hash (a ∷ b ∷ [])) l_zero r_zero)
]

-- Both ways to build a level have exactly the parents.
has_index-parents : (p : ℕ) (is : List ℕ) → has_index p (parent_indices is) ≡ has_child p is
unfolding has_index parent_indices has_child
has_index-parents p [] = refl
has_index-parents p (i ∷ is) = ground (arith, has_index-parents p is)

lookup-map_pairs :
    (f : ℕ → ℕ) (p : ℕ) (is : List ℕ)
    → lookup p (map (λ q. (q, f q)) is) ≡ (if has_index p is then some (f p) else none)
unfolding lookup has_index
lookup-map_pairs f p [] = refl
lookup-map_pairs f p (i ∷ is) = ground (arith, lookup-map_pairs f p is)

has_index-keys :
    (p : ℕ) (d : List (ℕ × ℕ))
    → has_index p (keys d) ≡ elim (lookup p d) [ none ↦ false | some _ ↦ true ]
unfolding lookup has_index
has_index-keys p [] = refl
has_index-keys p ((i, v) ∷ d) = ground (arith, has_index-keys p d)

pub lookup-assign {ℓ} :
    {V : Type ℓ} (j k : ℕ) (v : V) (d : List (ℕ × V))
    → lookup j (assign k v d) ≡ (if k == j then some v else lookup j d)
unfolding lookup assign
lookup-assign j k v [] = refl
lookup-assign j k v ((i, w) ∷ d) = ground (arith, lookup-assign j k v d)

lookup-fill_level :
    (nodes : List (ℕ × ℕ)) (z p : ℕ) (is : List ℕ) (next : List (ℕ × ℕ))
    → lookup p (fill_level nodes z is next) ≡ elim (lookup p next) [
      | some v ↦ some v
      | none ↦ if has_child p is then some (parent nodes z p) else none
    ]
unfolding fill_level has_child
lookup-fill_level nodes z p [] next = ground arith
lookup-fill_level nodes z p (i ∷ is) next =
    let added = assign (i / 2) (parent nodes z (i / 2)) next in
    ground (
      arith,
      lookup-fill_level nodes z p is next,
      lookup-fill_level nodes z p is added,
      has_index-keys (i / 2) next,
      lookup-assign p (i / 2) (parent nodes z (i / 2)) next,
    )

-- The set comprehension of `root` builds the next level.
pub next_level-Stands :
    (t : MerkleTree) (base nodes : List (ℕ × ℕ)) (l : ℕ)
    → IsTree t
    → l ≤ t.depth
    → Stands base l nodes
    → Stands base (suc l) (next_level t l nodes)
unfolding next_level
next_level-Stands t base nodes l w h s =
    let z = zero_at t l in
    parents_stand base nodes _ l z (zero_at_lem t l w h) s (λ p.
      lookup-map_pairs (parent nodes z) p (parent_indices (keys nodes))
      ∙ ap (λ b. if b then some (parent nodes z p) else none) (has_index-parents p (keys nodes)))

-- And so does the guarded loop of `proof`.
pub fill_level-Stands :
    (t : MerkleTree) (base nodes : List (ℕ × ℕ)) (l : ℕ)
    → IsTree t
    → l ≤ t.depth
    → Stands base l nodes
    → Stands base (suc l) (fill_level nodes (zero_at t l) (keys nodes) [])
fill_level-Stands t base nodes l w h s =
    let z = zero_at t l in
    parents_stand base nodes _ l z (zero_at_lem t l w h) s
      (λ p. lookup-fill_level nodes z p (keys nodes) [] ∙ unfold lookup in refl)
