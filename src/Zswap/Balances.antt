-- ===== src/Zswap/Balances.antt =====
-- What `get_balance` reports, and what `mark_spent` changes.
use noxipher.Prelude.{
  ℕ, ◌+◌, ◌≡◌, refl, ap, ◌∙◌, arith, List, [], ◌∷◌, Option, list_eq, list_eq_iff, if◌then◌else◌,
}
use noxipher.Zswap.Notes.{ShieldedCoinNote, compute_nullifier_safe, add_member}
use noxipher.Zswap.State.{
  ZswapState, option_ne, keep_unspent, mark_spent, credit, balance_of, wanted, credit_coins,
  get_balance,
}

-- The sum of the coins of one token type.
abbrev pub total_of : List ℕ → List ShieldedCoinNote → ℕ
total_of k [] = 0
total_of k (c ∷ cs) = (if list_eq c.token_type k then c.value else 0) + total_of k cs

balance_of-credit :
    (k j : List ℕ) (v : ℕ) (d : List (List ℕ × ℕ))
    → balance_of k (credit j v d) ≡ balance_of k d + (if list_eq j k then v else 0)
unfolding balance_of credit
balance_of-credit k j v [] = ground (arith, list_eq_iff j k)
balance_of-credit k j v ((i, w) ∷ d) =
    ground (arith, list_eq_iff j k, list_eq_iff i j, list_eq_iff i k, balance_of-credit k j v d)

wanted_total :
    (f : Option (List ℕ)) (k : List ℕ) (cs : List ShieldedCoinNote) (d : List (List ℕ × ℕ))
    → balance_of k (credit_coins f cs d)
      ≡ balance_of k d + (if wanted f k then total_of k cs else 0)
unfolding credit_coins
wanted_total f k [] d = ground arith
wanted_total f k (c ∷ cs) d = ground (
  arith,
  list_eq_iff c.token_type k,
  wanted_total f k cs d,
  wanted_total f k cs (credit c.token_type c.value d),
  balance_of-credit k c.token_type c.value d,
)

-- The balance of a token type is the sum of the unspent coins of that type; a filter leaves the
-- balance of its own token type and makes the others 0.
pub get_balance_lem :
    (s : ZswapState) (f : Option (List ℕ)) (k : List ℕ)
    → balance_of k (get_balance s f) ≡ (if wanted f k then total_of k s.unspent_coins else 0)
unfolding get_balance
get_balance_lem s f k = wanted_total f k s.unspent_coins [] ∙ unfold balance_of in omega arith

keep_unspent_all :
    (nullifier : List ℕ) (cs : List ShieldedCoinNote) → keep_unspent nullifier cs ≡ cs
unfolding keep_unspent compute_nullifier_safe option_ne
keep_unspent_all nullifier [] = refl
keep_unspent_all nullifier (c ∷ cs) = ap (◌∷◌ c) (keep_unspent_all nullifier cs)

-- `mark_spent` removes no coin, whatever the nullifier: it records the nullifier, and the coins
-- and every balance stay as they were.
pub mark_spent_removes_nothing :
    (s : ZswapState) (nullifier : List ℕ) (f : Option (List ℕ))
    → ((mark_spent s nullifier).unspent_coins ≡ s.unspent_coins)
      × (get_balance (mark_spent s nullifier) f ≡ get_balance s f)
      × ((mark_spent s nullifier).spent_nullifiers ≡ add_member nullifier s.spent_nullifiers)
unfolding mark_spent get_balance
mark_spent_removes_nothing s nullifier f =
    let e = keep_unspent_all nullifier s.unspent_coins in
    (e, ap (λ cs. credit_coins f cs []) e, refl)
