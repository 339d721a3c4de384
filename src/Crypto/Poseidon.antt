-- ===== src/Crypto/Poseidon.antt =====
-- src/noxipher/crypto/poseidon.py over `Fr`.
use noxipher.Prelude.{
  ℕ, zero, suc, ◌+◌, ◌-◌, ◌/◌, ◌<◌, arith, List, [], ◌∷◌, map, length, get_or, All, ltb,
  if◌then◌else◌,
}
use noxipher.Crypto.Fields.{fr_modulus, of_int, of_int-lt, add, add-lt, mul, pow}
use noxipher.Crypto.PoseidonConstants.{round_constants, mds}

abbrev pub width : ℕ
width = 3

abbrev pub full_rounds : ℕ
full_rounds = 8

abbrev pub partial_rounds : ℕ
partial_rounds = 60

unfoldable pub sbox : ℕ → ℕ
sbox x = pow fr_modulus x 5

-- `for j in range(WIDTH): val += Fr(MDS[i][j]) * state[j]`
unfoldable pub dot : List ℕ → List ℕ → ℕ → ℕ
dot [] state val = val
dot (c ∷ row) [] val = val
dot (c ∷ row) (s ∷ state) val =
    dot row state (add fr_modulus val (mul fr_modulus (of_int fr_modulus c) s))

-- `for i in range(WIDTH)` of `linear_layer`.
unfoldable pub mix_rows : List (List ℕ) → List ℕ → List ℕ → List ℕ
mix_rows [] constants state = []
mix_rows (row ∷ rows) [] state = []
mix_rows (row ∷ rows) (c ∷ constants) state =
    add fr_modulus (dot row state 0) (of_int fr_modulus c) ∷ mix_rows rows constants state

unfoldable pub linear_layer : List ℕ → ℕ → List ℕ
linear_layer state round_index =
    let none_left : List ℕ = 0 ∷ 0 ∷ 0 ∷ [] in
    let constants =
      if ltb (round_index + 1) (length round_constants)
      then get_or round_constants (round_index + 1) none_left
      else none_left in
    mix_rows mds constants state

-- The S-box on the last element only.
unfoldable pub sbox_last : List ℕ → List ℕ
sbox_last [] = []
sbox_last (x ∷ []) = sbox x ∷ []
sbox_last (x ∷ y ∷ rest) = x ∷ sbox_last (y ∷ rest)

-- `count` rounds from the index `r` on.
unfoldable pub run_full : ℕ → ℕ → List ℕ → List ℕ
run_full zero r state = state
run_full (suc count) r state = run_full count (r + 1) (linear_layer (map sbox state) r)

unfoldable pub run_partial : ℕ → ℕ → List ℕ → List ℕ
run_partial zero r state = state
run_partial (suc count) r state = run_partial count (r + 1) (linear_layer (sbox_last state) r)

unfoldable pub add_constants : List ℕ → List ℕ → List ℕ
add_constants [] constants = []
add_constants (s ∷ state) [] = s ∷ state
add_constants (s ∷ state) (c ∷ constants) =
    add fr_modulus s (of_int fr_modulus c) ∷ add_constants state constants

unfoldable pub permutation : List ℕ → List ℕ
permutation state =
    let half_full = full_rounds / 2 in
    let total_rounds = full_rounds + partial_rounds in
    let last = half_full + partial_rounds in
    let first = add_constants state (get_or round_constants 0 []) in
    run_full (total_rounds - last) last
      (run_partial partial_rounds half_full (run_full half_full 0 first))

-- `register[j] += val` for a chunk of at most two values, then the permutation.
unfoldable pub absorb : List ℕ → List ℕ → List ℕ
absorb [] register = register
absorb (x ∷ []) register = permutation (add_constants register (x ∷ []))
absorb (x ∷ y ∷ rest) register = absorb rest (permutation (add_constants register (x ∷ y ∷ [])))

-- `Poseidon.hash` and `transient_hash`, on the values of the elements.
unfoldable pub transient_hash : List ℕ → ℕ
transient_hash inputs = get_or (absorb inputs (0 ∷ 0 ∷ of_int fr_modulus (length inputs) ∷ [])) 0 0

abbrev pub IsReduced : ℕ → Type 0
IsReduced v = v < fr_modulus

mix_rows-IsReduced :
    (rows : List (List ℕ)) (constants state : List ℕ)
    → All IsReduced (mix_rows rows constants state)
unfolding mix_rows
mix_rows-IsReduced [] constants state = tt
mix_rows-IsReduced (row ∷ rows) [] state = tt
mix_rows-IsReduced (row ∷ rows) (c ∷ constants) state =
    (add-lt fr_modulus _ _ (omega arith), mix_rows-IsReduced rows constants state)

linear_layer-IsReduced : (state : List ℕ) (r : ℕ) → All IsReduced (linear_layer state r)
unfolding linear_layer
linear_layer-IsReduced state r = mix_rows-IsReduced mds _ state

run_full-IsReduced :
    (count r : ℕ) (state : List ℕ) → All IsReduced state → All IsReduced (run_full count r state)
unfolding run_full
run_full-IsReduced zero r state h = h
run_full-IsReduced (suc count) r state h =
    run_full-IsReduced count (r + 1) _ (linear_layer-IsReduced (map sbox state) r)

-- The last round reduces every element.
run_full_end : (count r : ℕ) (state : List ℕ) → All IsReduced (run_full (suc count) r state)
unfolding run_full
run_full_end count r state =
    run_full-IsReduced count (r + 1) _ (linear_layer-IsReduced (map sbox state) r)

permutation-IsReduced : (state : List ℕ) → All IsReduced (permutation state)
unfolding permutation
permutation-IsReduced state = run_full_end 3 64 (
    run_partial partial_rounds 4 (run_full 4 0 (add_constants state (get_or round_constants 0 []))))

absorb-IsReduced :
    (inputs register : List ℕ) → All IsReduced register → All IsReduced (absorb inputs register)
unfolding absorb
absorb-IsReduced [] register h = h
absorb-IsReduced (x ∷ []) register h = permutation-IsReduced _
absorb-IsReduced (x ∷ y ∷ rest) register h = absorb-IsReduced rest _ (permutation-IsReduced _)

first_reduced : (state : List ℕ) → All IsReduced state → get_or state 0 0 < fr_modulus
first_reduced [] h = omega arith
first_reduced (x ∷ xs) h = h.0

-- A hash is an element of `Fr`.
pub transient_hash-lt : (inputs : List ℕ) → transient_hash inputs < fr_modulus
unfolding transient_hash
transient_hash-lt inputs = first_reduced _ (
    absorb-IsReduced inputs _
      (omega arith, (omega arith, (of_int-lt fr_modulus (length inputs) (omega arith), tt))))
