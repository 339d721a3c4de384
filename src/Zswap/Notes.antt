-- ===== src/Zswap/Notes.antt =====
-- src/noxipher/zswap/notes.py. A byte string is the list of its bytes.
use noxipher.Prelude.{
  ℕ, Bool, false, ◌||◌, List, [], ◌∷◌, Option, none, some, list_eq, if◌then◌else◌,
}
use noxipher.Crypto.Fields.{fr_modulus, of_int, of_bytes, to_bytes}
use noxipher.Crypto.Poseidon.{transient_hash}

pub record ShieldedCoinNote : Type 0 where
  pub token_type : List ℕ
  pub value : ℕ
  pub nonce : List ℕ
  pub owner_pk : List ℕ
  pub merkle_tree_index : ℕ
  pub tx_hash : Option (List ℕ)

unfoldable pub compute_nullifier : ShieldedCoinNote → ℕ → List ℕ
compute_nullifier note secret_scalar = to_bytes (
    transient_hash
      (of_int fr_modulus secret_scalar ∷ of_int fr_modulus note.merkle_tree_index ∷ []))

unfoldable pub compute_commitment : ShieldedCoinNote → List ℕ
compute_commitment note = to_bytes (
    transient_hash (
      of_bytes fr_modulus note.token_type
      ∷ of_int fr_modulus note.value
      ∷ of_bytes fr_modulus note.owner_pk
      ∷ of_bytes fr_modulus note.nonce
      ∷ []))

-- `compute_nullifier` raises nothing on a note, so the handler of the `try` is not reached.
unfoldable pub compute_nullifier_safe : ShieldedCoinNote → Option ℕ → Option (List ℕ)
compute_nullifier_safe note none = none
compute_nullifier_safe note (some secret_scalar) = some (compute_nullifier note secret_scalar)

-- A Python set of byte strings.
unfoldable pub member : List ℕ → List (List ℕ) → Bool
member b [] = false
member b (x ∷ xs) = list_eq x b || member b xs

unfoldable pub add_member : List ℕ → List (List ℕ) → List (List ℕ)
add_member b xs = if member b xs then xs else b ∷ xs

-- `NullifierSet`.
pub record NullifierSet : Type 0 where
  pub nullifiers : List (List ℕ)

unfoldable pub add : NullifierSet → List ℕ → NullifierSet
add s nullifier = record { nullifiers = add_member nullifier s.nullifiers }

unfoldable pub contains : NullifierSet → List ℕ → Bool
contains s nullifier = member nullifier s.nullifiers

unfoldable pub is_spent : NullifierSet → ShieldedCoinNote → ℕ → Bool
is_spent s note secret_scalar = contains s (compute_nullifier note secret_scalar)
