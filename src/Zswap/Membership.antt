-- ===== src/Zswap/Membership.antt =====
-- `root` and `proof`: the path of a leaf leads to the root.
use native.Mathlib.Nat.{pow-succ', div-eq_of_lt, div-div-eq-div-mul}
use noxipher.Prelude.{
  ℕ, zero, suc, ◌+◌, ◌-◌, ◌*◌, ◌/◌, ◌%◌, ◌^◌, ◌≤◌, ◌<◌, ◌≡◌, refl, sym, ap, ap₂, subst, ◌∙◌, arith,
  Bool, true, false, inl, inr, List, [], ◌∷◌, some, leb, ◌==◌, ==_refl, Bool-cases, if◌then◌else◌,
}
use mathlib.Core.Option
use noxipher.Core.Exceptions.{ok, err, value_error}
use noxipher.Crypto.Fields.{fr_modulus, of_bytes, of_bytes-lt, of_bytes-to_bytes, to_bytes}
use noxipher.Crypto.Poseidon.{transient_hash, transient_hash-lt}
use noxipher.Zswap.MerkleTree.{
  lookup, assign, get, keys, MerkleTree, insert, zero_at, leaf_nodes, root, fill_level, sibling,
  path_from, proof,
}
use noxipher.Zswap.Root.{insert-IsTree, root_lem}
use noxipher.Zswap.Levels.{
  lookup-assign, node, IsTree, zero_at_lem, Stands, leaves_stand, fill_level-Stands,
}

-- How a verifier goes up from a value at an index along a path of siblings.
unfoldable pub climb : ℕ → ℕ → List (List ℕ) → ℕ
climb v i [] = v
climb v i (s ∷ path) =
    let other = of_bytes fr_modulus s in
    climb (transient_hash (if i % 2 == 0 then v ∷ other ∷ [] else other ∷ v ∷ [])) (i / 2) path

leaf-lt : (d : List (ℕ × List ℕ)) (i : ℕ) → get (lookup i (leaf_nodes d)) 0 < fr_modulus
unfolding leaf_nodes lookup
leaf-lt [] i = omega arith
leaf-lt ((j, c) ∷ d) i = elim (Bool-cases (j == i)) [
  | inl here ↦ rw here (of_bytes-lt fr_modulus c (omega arith))
  | inr there ↦ rw there (leaf-lt d i)
]

node-lt : (d : List (ℕ × List ℕ)) (l i : ℕ) → node (leaf_nodes d) l i < fr_modulus
unfolding node
node-lt d zero i = leaf-lt d i
node-lt d (suc l) i = transient_hash-lt _

-- A node with its sibling gives the parent, on either side.
siblings :
    (base : List (ℕ × ℕ)) (l i : ℕ)
    → transient_hash (
        if i % 2 == 0
        then node base l i ∷ node base l (sibling i) ∷ []
        else node base l (sibling i) ∷ node base l i ∷ [])
      ≡ node base (suc l) (i / 2)
unfolding node sibling
siblings base l i = elim (Bool-cases (i % 2 == 0)) [
  | inl even ↦
      let a : i ≡ i / 2 * 2 = ground (arith, even) in
      let b : i + 1 ≡ i / 2 * 2 + 1 = omega (arith, a) in
      rw even (ap₂ (λ x y. transient_hash (x ∷ y ∷ [])) (ap (node base l) a) (ap (node base l) b))
  | inr odd ↦
      let a : i - 1 ≡ i / 2 * 2 = ground (arith, odd) in
      let b : i ≡ i / 2 * 2 + 1 = ground (arith, odd) in
      rw odd (ap₂ (λ x y. transient_hash (x ∷ y ∷ [])) (ap (node base l) a) (ap (node base l) b))
]

path_climbs :
    (t : MerkleTree) (d : List (ℕ × List ℕ)) (nodes : List (ℕ × ℕ)) (count l i : ℕ)
    → IsTree t
    → l + count ≤ t.depth
    → Stands (leaf_nodes d) l nodes
    → climb (node (leaf_nodes d) l i) i (path_from t count l nodes i)
      ≡ node (leaf_nodes d) (l + count) (i / 2 ^ count)
unfolding climb path_from
path_climbs t d nodes zero l i w h s =
    let a : l ≡ l + 0 = omega arith in
    let b : i ≡ i / 2 ^ 0 = omega arith in ap₂ (node (leaf_nodes d)) a b
path_climbs t d nodes (suc count) l i w h s =
    let base = leaf_nodes d in
    let z = zero_at t l in
    let next = fill_level nodes z (keys nodes) [] in
    let other : of_bytes fr_modulus (to_bytes (get (lookup (sibling i) nodes) z))
        ≡ node base l (sibling i) =
      ap (λ v. of_bytes fr_modulus (to_bytes v))
        (ap (get (lookup (sibling i) nodes)) (zero_at_lem t l w (omega arith)) ∙ s (sibling i))
      ∙ of_bytes-to_bytes fr_modulus _ (node-lt d l (sibling i)) (omega arith) in
    let a : suc l + count ≡ l + suc count = omega arith in
    let b : i / 2 / 2 ^ count ≡ i / 2 ^ suc count =
      div-div-eq-div-mul i 2 (2 ^ count) ∙ ap (λ (p : ℕ). i / p) (sym (pow-succ' 2 count)) in
    ap (λ v. climb v (i / 2) (path_from t count (suc l) next (i / 2)))
      (ap
          (λ o.
            transient_hash (if i % 2 == 0 then node base l i ∷ o ∷ [] else o ∷ node base l i ∷ []))
          other
        ∙ siblings base l i)
    ∙ path_climbs t d next count (suc l) (i / 2) w (omega arith)
        (fill_level-Stands t base nodes l w (omega arith) s)
    ∙ ap₂ (node base) a b

leaf_of :
    (d : List (ℕ × List ℕ)) (i : ℕ) (c : List ℕ)
    → lookup i d ≡ some c
    → get (lookup i (leaf_nodes d)) 0 ≡ of_bytes fr_modulus c
unfolding leaf_nodes lookup
leaf_of [] i c e = cc
leaf_of ((j, x) ∷ d) i c e = ground (arith, leaf_of d i c)

-- For every commitment that a tree holds, `proof` returns a path that leads from the commitment
-- to what `root` returns, and neither raises.
pub proof_leads_to_root :
    (t : MerkleTree) (index : ℕ) (commitment : List ℕ)
    → IsTree t
    → index < 2 ^ t.depth
    → lookup index t.leaves ≡ some commitment
    → (path : List (List ℕ)) × (proof t index ≡ ok path)
      × (root t ≡ ok (to_bytes (climb (of_bytes fr_modulus commitment) index path)))
unfolding proof
proof_leads_to_root t index commitment w h e =
    let base = leaf_nodes t.leaves in
    let inside : leb (2 ^ t.depth) index ≡ false = ground (arith, h) in
    let path = path_from t t.depth 0 base index in
    let a : 0 + t.depth ≡ t.depth = omega arith in
    let start : of_bytes fr_modulus commitment ≡ node base 0 index =
      sym (leaf_of t.leaves index commitment e) ∙ unfold node in refl in
    let top : climb (of_bytes fr_modulus commitment) index path ≡ node base t.depth 0 =
      ap (λ v. climb v index path) start
      ∙ path_climbs t t.leaves base t.depth 0 index w (omega arith) (leaves_stand base)
      ∙ ap₂ (node base) a (div-eq_of_lt h) in
    (path, rw inside, root_lem t w ∙ ap (λ v. ok (to_bytes v)) (sym top))

node-ext :
    (a b : List (ℕ × ℕ)) (l i : ℕ)
    → ((j : ℕ) → get (lookup j a) 0 ≡ get (lookup j b) 0)
    → node a l i ≡ node b l i
unfolding node
node-ext a b zero i h = h i
node-ext a b (suc l) i h =
    ap₂ (λ x y. transient_hash (x ∷ y ∷ [])) (node-ext a b l (i * 2) h)
      (node-ext a b l (i * 2 + 1) h)

lookup-leaf_nodes :
    (d : List (ℕ × List ℕ)) (i : ℕ)
    → lookup i (leaf_nodes d) ≡ Option.map (of_bytes fr_modulus) (lookup i d)
unfolding leaf_nodes lookup
lookup-leaf_nodes [] i = refl
lookup-leaf_nodes ((j, c) ∷ d) i = elim (Bool-cases (j == i)) [
  | inl here ↦ rw here
  | inr there ↦ rw there (lookup-leaf_nodes d i)
]

-- Two trees that the constructor and insertions made have the same root if they have the same
-- depth and the same commitment at each index, whatever the order of the insertions.
pub root-eq_of_leaves :
    (t t' : MerkleTree)
    → IsTree t
    → IsTree t'
    → t.depth ≡ t'.depth
    → ((i : ℕ) → lookup i t.leaves ≡ lookup i t'.leaves)
    → root t ≡ root t'
root-eq_of_leaves t t' w w' e h =
    let same : (i : ℕ)
        → get (lookup i (leaf_nodes t.leaves)) 0 ≡ get (lookup i (leaf_nodes t'.leaves)) 0 =
      λ i.
        ap (λ o. get o 0)
          (lookup-leaf_nodes t.leaves i
            ∙ ap (Option.map (of_bytes fr_modulus)) (h i)
            ∙ sym (lookup-leaf_nodes t'.leaves i)) in
    root_lem t w
    ∙ ap (λ v. ok (to_bytes v))
        (node-ext _ _ t.depth 0 same ∙ ap (λ n. node (leaf_nodes t'.leaves) n 0) e)
    ∙ sym (root_lem t' w')

insert-parts :
    (t t' : MerkleTree) (index : ℕ) (c : List ℕ)
    → insert t index c ≡ ok t'
    → (index < 2 ^ t'.depth) × (lookup index t'.leaves ≡ some c)
unfolding insert
insert-parts t t' index c e = go (leb (2 ^ t.depth) index) refl e
  where
    t₁ : MerkleTree
    t₁ = record t { leaves = assign index c t.leaves }

    go :
        (b : Bool)
        → leb (2 ^ t.depth) index ≡ b
        → (if b then err value_error else ok t₁) ≡ ok t'
        → (index < 2 ^ t'.depth) × (lookup index t'.leaves ≡ some c)
    go true p q = absurd (cc q)
    go false p q =
        let same : t₁ ≡ t' = cc q in
        subst (λ (x : MerkleTree). (index < 2 ^ x.depth) × (lookup index x.leaves ≡ some c)) same
          (ground (arith, p), lookup-assign index index c t.leaves ∙ rw (==_refl index) refl)

-- After an insertion that does not raise, into a tree that the constructor and insertions made,
-- `proof` at that index returns a path that leads from the inserted commitment to the new root,
-- whatever stood there before.
pub proof-insert :
    (t t' : MerkleTree) (index : ℕ) (commitment : List ℕ)
    → IsTree t
    → insert t index commitment ≡ ok t'
    → (path : List (List ℕ)) × (proof t' index ≡ ok path)
      × (root t' ≡ ok (to_bytes (climb (of_bytes fr_modulus commitment) index path)))
proof-insert t t' index commitment w e =
    let (inside, there) = insert-parts t t' index commitment e in
    proof_leads_to_root t' index commitment (insert-IsTree t t' index commitment w e) inside there
