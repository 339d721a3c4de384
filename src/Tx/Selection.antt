-- ===== src/Tx/Selection.antt =====
-- What the choice of UTXOs of src/noxipher/tx/builder.py comes to.
use noxipher.Prelude.{
  ℕ, suc, length, subst, ◌+◌, ◌≤◌, ◌≡◌, refl, sym, ap, ◌∙◌, arith, inl, inr, List, [], ◌∷◌, some,
  leb, Bool-cases, Option-cases, All, ◌⊎◌, ==_iff,
}
use noxipher.Prelude.Integers.{ℤ, pos, ◌≤ℤ◌, ◌<ℤ◌, leb_ℤ, eqb_ℤ, eq_of_parts}
use noxipher.Core.Exceptions.{ok}
use noxipher.Wallet.Hex.{fromhex}
use noxipher.Wallet.Utxo.{
  Utxo, has_token, value_or_zero, value_at, i_hash, insert_utxo, sort_largest_first,
}
use noxipher.Tx.Structures.{UtxoSpend}
use noxipher.Tx.Builder.{eligible_utxos, exact_match, greedy, select_utxos}

abbrev pub total_value : List Utxo → ℕ
total_value [] = 0
total_value (u ∷ us) = value_or_zero u + total_value us

abbrev pub total_spent : List UtxoSpend → ℕ
total_spent [] = 0
total_spent (s ∷ ss) = s.value + total_spent ss

-- A UTXO that can be spent: it has a value, and its hash is hex.
abbrev pub IsReadable : Utxo → Type 0
IsReadable u = ((v : ℕ) × (value_at u ≡ ok v)) × ((h : List ℕ) × (fromhex (i_hash u) ≡ ok h))

insert-total :
    (u : Utxo) (us : List Utxo) → total_value (insert_utxo u us) ≡ value_or_zero u + total_value us
unfolding insert_utxo
insert-total u [] = refl
insert-total u (t ∷ us) = ground (arith, insert-total u us)

sort-total : (us : List Utxo) → total_value (sort_largest_first us) ≡ total_value us
unfolding sort_largest_first
sort-total [] = refl
sort-total (u ∷ us) = omega (arith, insert-total u (sort_largest_first us), sort-total us)

insert-All :
    (P : Utxo → Type 0) (u : Utxo) (us : List Utxo) → P u → All P us → All P (insert_utxo u us)
unfolding insert_utxo
insert-All P u [] h hs = (h, tt)
insert-All P u (t ∷ us) h (ht, hs) = elim (Bool-cases (leb (value_or_zero t) (value_or_zero u))) [
  | inl e ↦ rw e (h, (ht, hs))
  | inr e ↦ rw e (ht, insert-All P u us h hs)
]

sort-All : (P : Utxo → Type 0) (us : List Utxo) → All P us → All P (sort_largest_first us)
unfolding sort_largest_first
sort-All P [] h = tt
sort-All P (u ∷ us) (h, hs) = insert-All P u (sort_largest_first us) h (sort-All P us hs)

exact_match-value :
    (r : ℤ) (us : List Utxo) (u : Utxo)
    → exact_match r us ≡ some u
    → (pos (value_or_zero u) ≡ r)
      × (value_or_zero u ≤ total_value us)
      × ((P : Utxo → Type 0) → All P us → P u)
unfolding exact_match
exact_match-value r [] u h = cc
exact_match-value r (t ∷ us) u h = elim (Bool-cases (eqb_ℤ (pos (value_or_zero t)) r)) [
  | inl e ↦
      let found : some t ≡ some u = rw e at h in
      let same : t ≡ u = cc found in
      let value : pos (value_or_zero t) ≡ r =
        eq_of_parts (pos (value_or_zero t)) r ((==_iff _ _).0 e) in
      (
        ap (λ u. pos (value_or_zero u)) (sym same) ∙ value,
        rw (← same) (omega arith),
        λ P hs. subst P same hs.0,
      )
  | inr e ↦
      let (v, le, readable) = exact_match-value r us u (rw e at h) in
      (v, omega (arith, le), λ P hs. readable P hs.1)
]

greedy-total :
    (r : ℤ) (acc : ℕ) (us : List Utxo) → (greedy r acc us).1 ≡ acc + total_value (greedy r acc us).0
unfolding greedy
greedy-total r acc [] = omega arith
greedy-total r acc (u ∷ us) = elim (Bool-cases (leb_ℤ r (pos (acc + value_or_zero u)))) [
  | inl e ↦ rw e (omega arith)
  | inr e ↦ rw e (omega (arith, greedy-total r (acc + value_or_zero u) us))
]

greedy-enough :
    (r : ℤ) (acc : ℕ) (us : List Utxo)
    → r ≤ℤ pos (acc + total_value us)
    → r ≤ℤ pos (greedy r acc us).1
unfolding greedy
greedy-enough r acc [] h = omega arith
greedy-enough r acc (u ∷ us) h = elim (Bool-cases (leb_ℤ r (pos (acc + value_or_zero u)))) [
  | inl e ↦ rw e (ground (arith, e))
  | inr e ↦ rw e (greedy-enough r (acc + value_or_zero u) us (omega arith))
]

greedy-le : (r : ℤ) (acc : ℕ) (us : List Utxo) → (greedy r acc us).1 ≤ acc + total_value us
unfolding greedy
greedy-le r acc [] = omega arith
greedy-le r acc (u ∷ us) = elim (Bool-cases (leb_ℤ r (pos (acc + value_or_zero u)))) [
  | inl e ↦ rw e (omega arith)
  | inr e ↦ rw e (omega (arith, greedy-le r (acc + value_or_zero u) us))
]

greedy-All :
    (P : Utxo → Type 0) (r : ℤ) (acc : ℕ) (us : List Utxo) → All P us → All P (greedy r acc us).0
unfolding greedy
greedy-All P r acc [] h = tt
greedy-All P r acc (u ∷ us) (h, hs) = elim (Bool-cases (leb_ℤ r (pos (acc + value_or_zero u)))) [
  | inl e ↦ rw e (h, tt)
  | inr e ↦ rw e (h, greedy-All P r (acc + value_or_zero u) us hs)
]

-- The selection by its two ways: an exact match, or the largest first.
select-cases :
    (r : ℤ) (us : List Utxo)
    → ((u : Utxo) × (exact_match r us ≡ some u) × (select_utxos r us ≡ (u ∷ [], value_or_zero u)))
      ⊎ (select_utxos r us ≡ greedy r 0 (sort_largest_first us))
unfolding select_utxos
select-cases r us = elim (Option-cases (exact_match r us)) [
  | inl e ↦ inr (rw (e, select_utxos) refl)
  | inr (u, e) ↦ inl (u, e, rw (e, select_utxos) refl)
]

-- The total that is returned is that of the UTXOs chosen.
pub select_utxos-total :
    (r : ℤ) (us : List Utxo) → (select_utxos r us).1 ≡ total_value (select_utxos r us).0
select_utxos-total r us = elim (select-cases r us) [
  | inl (u, e, s) ↦ rw s (omega arith)
  | inr s ↦ rw s (omega (arith, greedy-total r 0 (sort_largest_first us)))
]

pub select_utxos-enough :
    (r : ℤ) (us : List Utxo) → r ≤ℤ pos (total_value us) → r ≤ℤ pos (select_utxos r us).1
select_utxos-enough r us h = elim (select-cases r us) [
  | inl (u, e, s) ↦ rw s (ground (arith, (exact_match-value r us u e).0))
  | inr s ↦ rw s (greedy-enough r 0 (sort_largest_first us) (omega (arith, sort-total us)))
]

pub select_utxos-short :
    (r : ℤ) (us : List Utxo) → pos (total_value us) <ℤ r → pos (select_utxos r us).1 <ℤ r
select_utxos-short r us h = elim (select-cases r us) [
  | inl (u, e, s) ↦
      absurd (ground (arith, (exact_match-value r us u e).0, (exact_match-value r us u e).1))
  | inr s ↦ rw s (omega (arith, greedy-le r 0 (sort_largest_first us), sort-total us))
]

pub select_utxos-All :
    (P : Utxo → Type 0) (r : ℤ) (us : List Utxo) → All P us → All P (select_utxos r us).0
select_utxos-All P r us h = elim (select-cases r us) [
  | inl (u, e, s) ↦ rw s ((exact_match-value r us u e).2 P h, tt)
  | inr s ↦ rw s (greedy-All P r 0 (sort_largest_first us) (sort-All P us h))
]

pub select_utxos-le : (r : ℤ) (us : List Utxo) → (select_utxos r us).1 ≤ total_value us
select_utxos-le r us = elim (select-cases r us) [
  | inl (u, e, s) ↦ rw s (exact_match-value r us u e).1
  | inr s ↦ rw s (omega (arith, greedy-le r 0 (sort_largest_first us), sort-total us))
]

insert-length : (u : Utxo) (us : List Utxo) → length (insert_utxo u us) ≡ suc (length us)
unfolding insert_utxo
insert-length u [] = refl
insert-length u (t ∷ us) = ground (arith, insert-length u us)

sort-length : (us : List Utxo) → length (sort_largest_first us) ≡ length us
unfolding sort_largest_first
sort-length [] = refl
sort-length (u ∷ us) = omega (arith, insert-length u (sort_largest_first us), sort-length us)

greedy-length : (r : ℤ) (acc : ℕ) (us : List Utxo) → length (greedy r acc us).0 ≤ length us
unfolding greedy
greedy-length r acc [] = omega arith
greedy-length r acc (u ∷ us) = elim (Bool-cases (leb_ℤ r (pos (acc + value_or_zero u)))) [
  | inl e ↦ rw e (omega arith)
  | inr e ↦ rw e (omega (arith, greedy-length r (acc + value_or_zero u) us))
]

exact_match-length : (r : ℤ) (us : List Utxo) (u : Utxo) → exact_match r us ≡ some u → 1 ≤ length us
unfolding exact_match
exact_match-length r [] u h = cc
exact_match-length r (t ∷ us) u h = omega arith

-- No more UTXOs are chosen than there are.
pub length-select_utxos : (r : ℤ) (us : List Utxo) → length (select_utxos r us).0 ≤ length us
length-select_utxos r us = elim (select-cases r us) [
  | inl (u, e, s) ↦ rw s (exact_match-length r us u e)
  | inr s ↦ rw s (omega (arith, greedy-length r 0 (sort_largest_first us), sort-length us))
]

pub eligible-All :
    (P : Utxo → Type 0) (token : List ℕ) (us : List Utxo)
    → All P us
    → All P (eligible_utxos token us)
unfolding eligible_utxos
eligible-All P token [] h = tt
eligible-All P token (u ∷ us) (h, hs) = elim (Bool-cases (has_token token u)) [
  | inl e ↦ rw e (h, eligible-All P token us hs)
  | inr e ↦ rw e (eligible-All P token us hs)
]

pub length-eligible :
    (token : List ℕ) (us : List Utxo) → length (eligible_utxos token us) ≤ length us
unfolding eligible_utxos
length-eligible token [] = omega arith
length-eligible token (u ∷ us) = elim (Bool-cases (has_token token u)) [
  | inl e ↦ rw e (omega (arith, length-eligible token us))
  | inr e ↦ rw e (omega (arith, length-eligible token us))
]
