-- ===== src/Crypto/Keys/Derivation.antt =====
-- Which paths `KeyDerivation.derive_key` of src/noxipher/crypto/keys.py derives, and which of them
-- are the same.
use noxipher.Prelude.{
  ℕ, ◌+◌, ◌^◌, ◌≤◌, ◌<◌, ◌≡◌, arith, ◌⊎◌, inl, inr, Bool-cases, List, [], ◌∷◌, ◌++◌, length,
  length-take, take, drop, ltb, bit_or,
}
use noxipher.Core.Exceptions.{Result, ok, err, ◌>>=◌, struct_error}
use noxipher.Crypto.Keys.{
  KeyLibrary, hardened, midnight_coin_type, hardened_message, normal_message, halves, derive_master,
  ckd_hardened, key_pair, ckd_normal, derive_key,
}
use noxipher.Crypto.Keys.Messages.{
  pack_u32_small, pack_u32_large, harden-lt, harden-large, harden_twice,
}

-- A child key of 32 bytes for a number in range, or the error of `struct.pack`.
abbrev pub Child : Result (List ℕ × List ℕ) → ℕ → Type 0
Child r i =
    ((key : List ℕ) × (cc_ : List ℕ) × (r ≡ ok (key, cc_)) × (length key ≡ 32) × (i < 2 ^ 32))
    ⊎ ((r ≡ err struct_error) × (2 ^ 32 ≤ i))

abbrev pub Derived : Result (List ℕ) → ℕ → ℕ → ℕ → Type 0
Derived r account role index =
    ((key : List ℕ) × (r ≡ ok key)
      × (length key ≡ 32)
      × (account < 2 ^ 32)
      × (role < 2 ^ 32)
      × (index < 2 ^ 32))
    ⊎ ((r ≡ err struct_error) × ((2 ^ 32 ≤ account) ⊎ ((2 ^ 32 ≤ role) ⊎ (2 ^ 32 ≤ index))))

range_cases : (i : ℕ) → (i < 2 ^ 32) ⊎ (2 ^ 32 ≤ i)
range_cases i = elim (Bool-cases (ltb i (2 ^ 32))) [
  | inl e ↦ inl (ground (arith, e))
  | inr e ↦ inr (ground (arith, e))
]

module _ (lib : KeyLibrary) (digest : (key m : List ℕ) → length (lib.hmac_sha512 key m) ≡ 64)
    (pairs : (seed : List ℕ)
      → length seed ≡ 32
      → (pk : List ℕ) × (sk : List ℕ) × (key_pair lib lib.sr25519 seed ≡ ok (pk, sk))) where
  first_half : (key m : List ℕ) → length (take 32 (lib.hmac_sha512 key m)) ≡ 32
  first_half key m = omega (arith, length-take 32 (lib.hmac_sha512 key m), digest key m)

  ckd_hardened_cases : (key cc_ : List ℕ) (i : ℕ) → Child (ckd_hardened lib key cc_ i) i
  unfolding ckd_hardened hardened_message halves
  ckd_hardened_cases key cc_ i = elim (range_cases i) [
    | inl small ↦
        let (suffix, packed) = pack_u32_small (bit_or i hardened) (harden-lt i small) in
        let m = (0 ∷ []) ++ key ++ suffix in
        let d = lib.hmac_sha512 cc_ m in
        inl (take 32 d, drop 32 d, rw packed, first_half cc_ m, small)
    | inr large ↦ inr (rw (pack_u32_large (bit_or i hardened) (harden-large i large)), large)
  ]

  ckd_normal_cases :
      (key cc_ : List ℕ) (i : ℕ) → length key ≡ 32 → Child (ckd_normal lib key cc_ i) i
  unfolding ckd_normal normal_message halves
  ckd_normal_cases key cc_ i h =
      let (pk, sk, pair) = pairs key h in
      elim (range_cases i) [
        | inl small ↦
            let (suffix, packed) = pack_u32_small i small in
            let m = pk ++ suffix in
            let d = lib.hmac_sha512 cc_ m in
            inl (take 32 d, drop 32 d, rw (pair, packed), first_half cc_ m, small)
        | inr large ↦ inr (rw (pair, pack_u32_large i large), large)
      ]

  -- The part of a path behind the account.
  below_account :
      (key cc_ : List ℕ) (role index : ℕ)
      → length key ≡ 32
      → (r : Result (List ℕ))
      → r ≡ (do
        (role_key, role_cc) ← ckd_normal lib key cc_ role
        (k, cc') ← ckd_normal lib role_key role_cc index
        ok k)
      → (account : ℕ) → account < 2 ^ 32
      → Derived r account role index
  below_account key cc_ role index h r e account small = elim (ckd_normal_cases key cc_ role h) [
    | inr (failed, large) ↦ inr (rw e (rw failed), inr (inl large))
    | inl (role_key, role_cc, derived, l, in_range) ↦
        elim (ckd_normal_cases role_key role_cc index l) [
          | inr (failed, large) ↦ inr (rw e (rw (derived, failed)), inr (inr large))
          | inl (k, cc', derived', l', in_range') ↦
              inl (k, rw e (rw (derived, derived')), l', small, in_range, in_range')
        ]
  ]

  -- For HMAC digests of 64 bytes, and a key pair for every seed of 32 bytes: a path is derived, to
  -- a key of 32 bytes, exactly when account, role and index are below 2 ^ 32, and any other path
  -- is refused by `struct.error`.
  pub derive_key_cases :
      (seed_64 : List ℕ) (account role index : ℕ)
      → Derived (derive_key lib seed_64 account role index) account role index
  unfolding derive_key
  derive_key_cases seed_64 account role index =
      let master = (derive_master lib seed_64).0 in
      let master_cc = (derive_master lib seed_64).1 in
      elim (ckd_hardened_cases master master_cc 44) [
        | inr (failed, large) ↦ absurd (omega (arith, large))
        | inl (k1, c1, d1, l1, _) ↦ elim (ckd_hardened_cases k1 c1 midnight_coin_type) [
          | inr (failed, large) ↦ absurd (omega (arith, large))
          | inl (k2, c2, d2, l2, _) ↦ elim (ckd_hardened_cases k2 c2 account) [
            | inr (failed, large) ↦ inr (rw (d1, d2, failed), inl large)
            | inl (k3, c3, d3, l3, small) ↦
                below_account k3 c3 role index l3 (derive_key lib seed_64 account role index)
                  (rw (d1, d2, d3)) account small
          ]
        ]
      ]

-- A hardened child takes its number's bit 31 as set, so an account and the account 2 ^ 31 above it
-- share all their keys, and neither is refused for it.
pub derive_key_aliased :
    (lib : KeyLibrary) (seed_64 : List ℕ) (account role index : ℕ)
    → account < 2 ^ 31
    → derive_key lib seed_64 (account + 2 ^ 31) role index
      ≡ derive_key lib seed_64 account role index
unfolding derive_key ckd_hardened hardened_message
derive_key_aliased lib seed_64 account role index h = rw (harden_twice account h)
