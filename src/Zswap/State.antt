-- ===== src/Zswap/State.antt =====
-- `ZswapState` of src/noxipher/zswap/state.py and `ZswapPool` of pool.py.
use noxipher.Prelude.{
  ℕ, ◌+◌, Bool, true, not, List, [], ◌∷◌, ◌++◌, Option, none, some, list_eq, if◌then◌else◌,
}
use noxipher.Core.Exceptions.{Result, ok, err}
use noxipher.Zswap.Notes.{ShieldedCoinNote, compute_commitment, compute_nullifier_safe, add_member}
use noxipher.Zswap.MerkleTree.{MerkleTree, new_tree, insert}

pub record ZswapState : Type 0 where
  pub unspent_coins : List ShieldedCoinNote
  pub spent_nullifiers : List (List ℕ)
  pub last_synced_height : ℕ
  pub merkle_tree : MerkleTree

unfoldable pub initial_state : ZswapState
initial_state = record {
  unspent_coins = [];
  spent_nullifiers = [];
  last_synced_height = 0;
  merkle_tree = new_tree 32;
}

-- The state after the call comes with its result: what was written before a raise stays.
unfoldable pub add_coin : ZswapState → ShieldedCoinNote → ZswapState × Result (Unit {0})
add_coin s note =
    let s' : ZswapState = record s { unspent_coins = s.unspent_coins ++ (note ∷ []) } in
    elim (insert s.merkle_tree note.merkle_tree_index (compute_commitment note)) [
      | ok t ↦ (record s' { merkle_tree = t }, ok tt)
      | err e ↦ (s', err e)
    ]

-- `a != b`, where `a` may be None.
unfoldable pub option_ne : Option (List ℕ) → List ℕ → Bool
option_ne none b = true
option_ne (some a) b = not (list_eq a b)

-- `[c for c in self.unspent_coins if c.compute_nullifier_safe() != nullifier]`
unfoldable pub keep_unspent : List ℕ → List ShieldedCoinNote → List ShieldedCoinNote
keep_unspent nullifier [] = []
keep_unspent nullifier (c ∷ cs) =
    let rest = keep_unspent nullifier cs in
    if option_ne (compute_nullifier_safe c none) nullifier then c ∷ rest else rest

unfoldable pub mark_spent : ZswapState → List ℕ → ZswapState
mark_spent s nullifier = record s {
  unspent_coins = keep_unspent nullifier s.unspent_coins;
  spent_nullifiers = add_member nullifier s.spent_nullifiers;
}

-- `balances[k] = balances.get(k, 0) + v`
unfoldable pub credit : List ℕ → ℕ → List (List ℕ × ℕ) → List (List ℕ × ℕ)
credit k v [] = (k, v) ∷ []
credit k v ((j, w) ∷ d) = if list_eq j k then (j, w + v) ∷ d else (j, w) ∷ credit k v d

unfoldable pub balance_of : List ℕ → List (List ℕ × ℕ) → ℕ
balance_of k [] = 0
balance_of k ((j, w) ∷ d) = if list_eq j k then w else balance_of k d

-- `token_type is None or coin.token_type == token_type`
unfoldable pub wanted : Option (List ℕ) → List ℕ → Bool
wanted none t = true
wanted (some token_type) t = list_eq t token_type

unfoldable pub credit_coins :
    Option (List ℕ) → List ShieldedCoinNote → List (List ℕ × ℕ) → List (List ℕ × ℕ)
credit_coins token_type [] balances = balances
credit_coins token_type (c ∷ cs) balances =
    credit_coins token_type cs
      (if wanted token_type c.token_type then credit c.token_type c.value balances else balances)

unfoldable pub get_balance : ZswapState → Option (List ℕ) → List (List ℕ × ℕ)
get_balance s token_type = credit_coins token_type s.unspent_coins []

-- `ZswapPool`: a state and its balance.
pub record ZswapPool : Type 0 where
  pub state : ZswapState

unfoldable pub get_shielded_balance : ZswapPool → Option (List ℕ) → List (List ℕ × ℕ)
get_shielded_balance p token_type = get_balance p.state token_type
