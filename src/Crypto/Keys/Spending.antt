-- ===== src/Crypto/Keys/Spending.antt =====
-- What `SpendingKey` of src/noxipher/crypto/keys.py makes of a mnemonic.
use noxipher.Prelude.{
  ℕ, ◌^◌, ◌≤◌, ◌<◌, ◌≡◌, arith, ◌⊎◌, inl, inr, true, false, Bool-cases, List, none, length,
  list_eq→eq, list_eq_refl, ◌↔◌, subst, list_eq,
}
use noxipher.Core.Exceptions.{Result, ok, err, struct_error, invalid_mnemonic_error}
use noxipher.Core.Config.{Network}
use noxipher.Crypto.Keys.{
  KeyLibrary, Sr25519Signer, SpendingKey, mnemonic_to_seed, key_pair, derive_key, derive_all_roles,
  night_external, zswap, dust, new_signer, sign, verify, sign_with, verify_with, new_spending_key,
}
use noxipher.Crypto.Keys.Derivation.{derive_key_cases}

module _ (lib : KeyLibrary) where
  -- Three keys of 32 bytes, the signer of the first one.
  pub record IsSpendingKey (sk : SpendingKey) : Type 0 where
    pub night_size : length sk.keys.night_key ≡ 32
    pub zswap_size : length sk.keys.zswap_seed ≡ 32
    pub dust_size : length sk.keys.dust_seed ≡ 32
    pub signs_night : new_signer lib sk.keys.night_key ≡ ok sk.signer

  abbrev pub Spending : Result SpendingKey → List ℕ → ℕ → Type 0
  Spending r mnemonic account =
      ((sk : SpendingKey) × (r ≡ ok sk)
        × IsSpendingKey sk
        × (lib.check mnemonic ≡ true)
        × (account < 2 ^ 32))
      ⊎ (((r ≡ err invalid_mnemonic_error) × (lib.check mnemonic ≡ false))
          ⊎ ((r ≡ err struct_error) × (lib.check mnemonic ≡ true) × (2 ^ 32 ≤ account)))

  -- Without the bindings a signature is accepted exactly when it is the one that signing gives.
  pub verify_fallback :
      (signer : Sr25519Signer) (signature message : List ℕ)
      → lib.sr25519 ≡ none
      → (verify lib signer signature message ≡ true) ↔ (sign lib signer message ≡ signature)
  unfolding sign verify sign_with verify_with
  verify_fallback signer signature message absent =
      rw (absent, verify, sign)
        (
          list_eq→eq _ _,
          λ e.
              subst (λ s. list_eq (lib.hmac_sha512 signer.private_key message) s ≡ true) e
                (list_eq_refl _),
        )

  module _ (digest : (key m : List ℕ) → length (lib.hmac_sha512 key m) ≡ 64)
      (pairs : (seed : List ℕ)
        → length seed ≡ 32
        → (pk : List ℕ) × (sk : List ℕ) × (key_pair lib lib.sr25519 seed ≡ ok (pk, sk)))
      (seeds : (m : List ℕ) → length (lib.to_seed m) ≡ 64) where
    role_key :
        (seed_64 : List ℕ) (account role : ℕ)
        → account < 2 ^ 32
        → role < 2 ^ 32
        → (key : List ℕ) × (derive_key lib seed_64 account role 0 ≡ ok key) × (length key ≡ 32)
    role_key seed_64 account role h g =
        elim (derive_key_cases lib digest pairs seed_64 account role 0) [
          | inl (key, derived, l, _, _, _) ↦ (key, derived, l)
          | inr (failed, large) ↦ absurd (omega (arith, large))
        ]

    -- For seeds and digests of 64 bytes, and a key pair for every seed of 32 bytes: a mnemonic of
    -- the word list with an account below 2 ^ 32 gives three keys of 32 bytes and the signer of
    -- the first; another mnemonic is InvalidMnemonicError, whatever the account; a larger account
    -- is refused by `struct.error`.
    pub new_spending_key_cases :
        (mnemonic : List ℕ) (network : Network) (account : ℕ)
        → Spending (new_spending_key lib mnemonic network account) mnemonic account
    unfolding new_spending_key mnemonic_to_seed derive_all_roles new_signer
    new_spending_key_cases mnemonic network account = elim (Bool-cases (lib.check mnemonic)) [
      | inr bad ↦ inr (inl (rw bad, bad))
      | inl good ↦
          let seed = lib.to_seed mnemonic in
          let size = seeds mnemonic in
          elim (derive_key_cases lib digest pairs seed account night_external 0) [
            | inr (failed, large) ↦ inr (inr (rw (good, size, failed), good, omega (arith, large)))
            | inl (night, derived, l, small, _, _) ↦
                let (shielded, derived', l') = role_key seed account zswap small (omega arith) in
                let (fee, derived'', l'') = role_key seed account dust small (omega arith) in
                let (pk, private_, pair) = pairs night l in
                inl (
                  record {
                    keys = record { night_key = night; zswap_seed = shielded; dust_seed = fee };
                    signer = record { public_key = pk; private_key = private_ };
                    network = network;
                  },
                  rw (good, size, derived, derived', derived'', pair),
                  record {
                    night_size = l;
                    zswap_size = l';
                    dust_size = l'';
                    signs_night = rw pair;
                  },
                  good,
                  small,
                )
          ]
    ]
