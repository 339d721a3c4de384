-- ===== src/Crypto/Tests.antt =====
-- The field and the curve of src/noxipher/crypto on concrete inputs.
use noxipher.Prelude.{
  ℕ, List, ◌++◌, none, true, take, length-take, length-append, ◌≡◌, ◌+◌, ◌^◌, arith, [], ◌∷◌,
  length, replicate, refl,
}
use noxipher.Crypto.Curves.{generator, identity, mul_loop, mul_point, mul_point_terminates}
use noxipher.Prelude.Digits.{le_bytes, from_le_bytes}
use noxipher.Core.Exceptions.{ok}
use noxipher.Core.Config.{preprod}
use noxipher.Crypto.Keys.{
  KeyLibrary, key_pair, pack_u32, hardened_message, derive_key, new_spending_key,
}
use noxipher.Crypto.Keys.Derivation.{Derived, derive_key_cases, derive_key_aliased}
use noxipher.Crypto.Keys.Spending.{Spending, new_spending_key_cases}

mul_point_terminates_example : mul_loop (256 + 3) 11 generator identity ≡ mul_point generator 11
mul_point_terminates_example = mul_point_terminates generator 11 3 (omega arith)

-- A digest of 32 bytes.

-- Functions with the sizes of those that the keys are made with, without the sr25519 bindings.
abbrev pub toy : KeyLibrary
toy = record {
  check = λ m. true;
  to_seed = λ m. replicate 64 1;
  hmac_sha512 = λ key m. take 64 (m ++ key ++ replicate 64 7);
  blake2b = λ seed. le_bytes 32 (from_le_bytes seed + 1);
  sha256 = λ m. le_bytes 32 (from_le_bytes m);
  sr25519 = none;
}

pub toy_digest : (key m : List ℕ) → length (toy.hmac_sha512 key m) ≡ 64
toy_digest key m =
    omega (
      arith,
      length-take 64 (m ++ key ++ replicate 64 7),
      length-append (m ++ key) (replicate 64 7),
    )

pub toy_pairs :
    (seed : List ℕ)
    → length seed ≡ 32
    → (pk : List ℕ) × (sk : List ℕ) × (key_pair toy toy.sr25519 seed ≡ ok (pk, sk))
unfolding key_pair
toy_pairs seed h = (toy.blake2b seed, seed, refl)

derive_key_cases_example : Derived (derive_key toy (replicate 64 1) 0 3 0) 0 3 0
derive_key_cases_example = derive_key_cases toy toy_digest toy_pairs (replicate 64 1) 0 3 0

derive_key_aliased_example :
    derive_key toy (replicate 64 1) (5 + 2 ^ 31) 2 0 ≡ derive_key toy (replicate 64 1) 5 2 0
derive_key_aliased_example = derive_key_aliased toy (replicate 64 1) 5 2 0 (omega arith)

abbrev parent_key : List ℕ
parent_key = replicate 32 6

child_message : hardened_message parent_key 44 ≡ ok (0 ∷ (parent_key ++ (128 ∷ 0 ∷ 0 ∷ 44 ∷ [])))
unfolding hardened_message pack_u32
child_message = refl

new_spending_key_cases_example : Spending toy (new_spending_key toy (1 ∷ []) preprod 7) (1 ∷ []) 7
new_spending_key_cases_example =
    new_spending_key_cases toy toy_digest toy_pairs (λ m. refl) (1 ∷ []) preprod 7
