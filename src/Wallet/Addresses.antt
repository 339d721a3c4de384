-- ===== src/Wallet/Addresses.antt =====
-- The wallets of src/noxipher/wallet have the addresses of their keys, on the networks that have
-- address prefixes.
use noxipher.Prelude.{
  ℕ, ◌%◌, ◌≡◌, arith, inl, inr, true, List, [], ◌∷◌, ◌++◌, some, codes, length, take, All, IsByte,
  All-append, get_or, Bool-cases, ◌==◌, suc, zero,
}
use noxipher.Prelude.Bits.{bit_or_high}
use noxipher.Prelude.Digits.{le_bytes-IsByte}
use noxipher.Core.Exceptions.{ok}
use noxipher.Core.Config.{Network}
use noxipher.Address.Codec.{hrp_table, hrp_of, decode_address}
use noxipher.Address.RoundTrip.{decode_address-encode}
use noxipher.Crypto.Fields.{to_bytes}
use noxipher.Crypto.Curves.{JubJubPoint, point_bytes}
use noxipher.Crypto.Hash.{secret_keys, zswap_from_seed, coin_public_key, encryption_public_key}
use noxipher.Crypto.Keys.{
  KeyLibrary, SpendingKey, Sr25519Signer, key_pair, new_signer, compute_address, from_mnemonic,
  sign,
}
use noxipher.Crypto.Keys.Spending.{IsSpendingKey, new_spending_key_cases}
use noxipher.Wallet.Wallets.{MidnightWallet, ShieldedWallet}
use noxipher.Zswap.State.{initial_state}
use noxipher.Wallet.Opening.{
  new_unshielded_wallet, new_shielded_wallet, new_dust_wallet, new_wallet,
}

take-IsByte : (n : ℕ) (bs : List ℕ) → All IsByte bs → All IsByte (take n bs)
take-IsByte zero bs h = tt
take-IsByte (suc n) [] h = tt
take-IsByte (suc n) (b ∷ bs) h = (h.0, take-IsByte n bs h.1)

get_or-IsByte : (n : ℕ) (bs : List ℕ) → All IsByte bs → IsByte (get_or bs n 0)
get_or-IsByte n [] h = omega arith
get_or-IsByte zero (b ∷ bs) h = h.0
get_or-IsByte (suc n) (b ∷ bs) h = get_or-IsByte n bs h.1

point_bytes-IsByte : (p : JubJubPoint) → All IsByte (point_bytes p)
unfolding point_bytes to_bytes
point_bytes-IsByte p =
    let bytes = le_bytes-IsByte 32 p.v in
    elim (Bool-cases (get_or (to_bytes p.u) 0 0 % 2 == 1)) [
      | inl odd ↦ rw odd (
          All-append IsByte _ _ (take-IsByte 31 _ bytes)
            (bit_or_high (get_or (to_bytes p.v) 31 0) (get_or-IsByte 31 _ bytes), tt))
      | inr even ↦ rw even bytes
    ]

module _ (lib : KeyLibrary) (digest : (key m : List ℕ) → length (lib.hmac_sha512 key m) ≡ 64)
    (pairs : (seed : List ℕ)
      → length seed ≡ 32
      → (pk : List ℕ) × (sk : List ℕ) × (key_pair lib lib.sr25519 seed ≡ ok (pk, sk)))
    (seeds : (m : List ℕ) → length (lib.to_seed m) ≡ 64)
    (sha_bytes : (m : List ℕ) → All IsByte (lib.sha256 m)) where
  -- A mnemonic of the word list, as the spending key that `from_mnemonic` makes of it.
  opened :
      (mnemonic : List ℕ) (network : Network)
      → lib.check mnemonic ≡ true
      → (sk : SpendingKey) × (from_mnemonic lib mnemonic network ≡ ok sk) × IsSpendingKey lib sk
  unfolding from_mnemonic
  opened mnemonic network good =
      elim (new_spending_key_cases lib digest pairs seeds mnemonic network 0) [
        | inl (sk, e, shape, _, _) ↦ (sk, e, shape)
        | inr (inl (_, bad)) ↦ absurd (cc (good, bad))
        | inr (inr (_, _, large)) ↦ absurd (omega (arith, large))
      ]

  shielded_opened :
      (seed hrp : List ℕ) (network : Network)
      → length seed ≡ 32
      → hrp_of hrp_table (codes "shielded") network ≡ some hrp
      → (w : ShieldedWallet) × (new_shielded_wallet lib seed network ≡ ok w)
        × (decode_address w.address
            ≡ ok (codes "shielded", network, w.coin_public_key ++ w.encryption_public_key))
  unfolding new_shielded_wallet secret_keys zswap_from_seed coin_public_key encryption_public_key
  shielded_opened seed hrp network size prefix =
      let keys = secret_keys lib.sha256 seed in
      let coin_pk = coin_public_key lib.sha256 keys in
      let enc_pk = encryption_public_key lib.sha256 keys in
      let (text, te, td) =
        decode_address-encode (coin_pk ++ enc_pk) (codes "shielded") hrp network
          (All-append IsByte coin_pk enc_pk (sha_bytes _) (point_bytes-IsByte _)) prefix in
      (
        record {
          coin_secret_key = keys.coin_secret_key;
          coin_public_key = coin_pk;
          encryption_public_key = enc_pk;
          address = text;
        },
        rw (size, te),
        td,
      )

  dust_signer :
      (seed : List ℕ)
      → length seed ≡ 32
      → (signer : Sr25519Signer) × (new_signer lib seed ≡ ok signer)
  unfolding new_signer
  dust_signer seed size =
      let (pk, private_, pair) = pairs seed size in
      (record { public_key = pk; private_key = private_ }, rw pair)

  -- For seeds and digests of 64 bytes, a key pair for every seed of 32 bytes, and hashes made of
  -- bytes: on a network with address prefixes every mnemonic of the word list opens a wallet,
  -- whatever the account. Its unshielded address decodes to that network and the hash of its
  -- public key, its shielded address to that network and the two shielded public keys.
  pub new_wallet_addresses :
      (mnemonic hrp shield_hrp : List ℕ) (network : Network) (account : ℕ)
      → lib.check mnemonic ≡ true
      → hrp_of hrp_table (codes "unshielded") network ≡ some hrp
      → hrp_of hrp_table (codes "shielded") network ≡ some shield_hrp
      → (w : MidnightWallet) × (new_wallet lib mnemonic network account ≡ ok w)
        × (decode_address w.unshielded.address
            ≡ ok (codes "unshielded", network, lib.sha256 w.unshielded.public_key))
        × (decode_address w.shielded.address
            ≡ ok (
              codes "shielded",
              network,
              w.shielded.coin_public_key ++ w.shielded.encryption_public_key,
            ))
  unfolding new_wallet new_unshielded_wallet new_dust_wallet compute_address
  new_wallet_addresses mnemonic hrp shield_hrp network account good prefix shield_prefix =
      let (sk, e, shape) = opened mnemonic network good in
      let (text, te, td) =
        decode_address-encode (lib.sha256 sk.signer.public_key) (codes "unshielded") hrp network
          (sha_bytes _) prefix in
      let (shielded, se, sd) =
        shielded_opened sk.keys.zswap_seed shield_hrp network shape.zswap_size shield_prefix in
      let (fee_signer, fee) = dust_signer sk.keys.dust_seed shape.dust_size in
      (
        record {
          unshielded = record {
            public_key = sk.signer.public_key;
            address = text;
            sign = sign lib sk.signer;
          };
          shielded = shielded;
          dust = record {
            public_key = fee_signer.public_key;
            network = network;
            sign = sign lib fee_signer;
          };
          shielded_state = initial_state;
          network = network;
        },
        rw (e, shape.signs_night, te, se, fee),
        td,
        sd,
      )
