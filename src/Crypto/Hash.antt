-- ===== src/Crypto/Hash.antt =====
-- `sample_bytes` of src/noxipher/crypto/hash.py and the keys of jubjub.py that are derived with
-- it. SHA-256 is a parameter: the digest of a byte string, which has 32 bytes.
use noxipher.Prelude.{
  ℕ, zero, suc, ◌+◌, ◌-◌, ◌≤◌, ◌<◌, ◌≡◌, arith, inl, inr, Bool, List, [], ◌∷◌, ◌++◌, codes, min,
  length, length-append, length-take, take, ltb, ◌==◌, if◌then◌else◌, Bool-cases,
}
use noxipher.Prelude.Digits.{le_bytes}
use noxipher.Core.Exceptions.{Result, ok, err, value_error, not_implemented_error}
use noxipher.Crypto.Fields.{fr_modulus, embedded_fr_modulus, of_bytes, to_bytes}
use noxipher.Crypto.Poseidon.{transient_hash}
use noxipher.Crypto.Curves.{generator, mul_point, point_bytes}

module _ (sha256 : List ℕ → List ℕ) where
  unfoldable pub persistent_hash : List ℕ → List ℕ
  persistent_hash data_ = sha256 data_

  -- `round_hash`, from the inner hash of the round's number and the seed.
  unfoldable pub round_hash : List ℕ → List ℕ → ℕ → List ℕ
  round_hash domain_separator seed round_idx =
      sha256 (domain_separator ++ sha256 (le_bytes 8 round_idx ++ seed))

  -- The loop of `sample_bytes`, on fuel: each round adds a byte at least.
  unfoldable pub sample_loop : ℕ → ℕ → List ℕ → List ℕ → List ℕ → ℕ → List ℕ
  sample_loop zero wanted domain_separator seed result round_idx = result
  sample_loop (suc fuel) wanted domain_separator seed result round_idx =
      let bytes_to_add = min 32 (wanted - length result) in
      let rest =
        sample_loop fuel wanted domain_separator seed
          (result ++ take bytes_to_add (round_hash domain_separator seed round_idx))
          (suc round_idx) in
      if ltb (length result) wanted then rest else result

  unfoldable pub sample_bytes : ℕ → List ℕ → List ℕ → List ℕ
  sample_bytes wanted domain_separator seed = sample_loop wanted wanted domain_separator seed [] 0

  -- `ZswapSecretKeys`: the two secrets, and the public keys made of them.
  pub record ZswapSecretKeys : Type 0 where
    pub coin_secret_key : List ℕ
    pub encryption_secret_key : ℕ

  unfoldable pub secret_keys : List ℕ → ZswapSecretKeys
  secret_keys seed = record {
    coin_secret_key = sha256 (codes "midnight:csk" ++ seed);
    encryption_secret_key =
        of_bytes embedded_fr_modulus (sample_bytes 64 (codes "midnight:esk") seed);
  }

  unfoldable pub zswap_from_seed : List ℕ → Result ZswapSecretKeys
  zswap_from_seed seed = if length seed == 32 then ok (secret_keys seed) else err value_error

  unfoldable pub coin_public_key : ZswapSecretKeys → List ℕ
  coin_public_key keys = sha256 (codes "midnight:zswap-pk[v1]" ++ keys.coin_secret_key)

  unfoldable pub encryption_public_key : ZswapSecretKeys → List ℕ
  encryption_public_key keys = point_bytes (mul_point generator keys.encryption_secret_key)

  -- `DustSecretKey.from_seed`.
  unfoldable pub dust_from_seed : List ℕ → Result ℕ
  dust_from_seed seed =
      if length seed == 32
      then ok (of_bytes fr_modulus (sample_bytes 64 (codes "midnight:dsk") seed))
      else err value_error

  -- `value.to_bytes(16, "little")` of a value in range.
  unfoldable pub coin_commitment : List ℕ → List ℕ → ℕ → Bool → List ℕ → List ℕ
  coin_commitment nonce token_type value recipient_is_user recipient_hash = sha256 (
      codes "midnight:zswap-cc[v1]"
      ++ nonce
      ++ token_type
      ++ le_bytes 16 value
      ++ (if recipient_is_user then 1 ∷ [] else 0 ∷ [])
      ++ recipient_hash)

  -- The loop ends with as many bytes as are wanted.
  sample_loop-length :
      ((m : List ℕ) → length (sha256 m) ≡ 32)
      → (fuel wanted : ℕ) (d s result : List ℕ) (i : ℕ) → length result ≤ wanted
      → wanted ≤ length result + fuel
      → length (sample_loop fuel wanted d s result i) ≡ wanted
  unfolding sample_loop round_hash
  sample_loop-length digest zero wanted d s result i h g = omega arith
  sample_loop-length digest (suc fuel) wanted d s result i h g =
      let hash = sha256 (d ++ sha256 (le_bytes 8 i ++ s)) in
      let n = min 32 (wanted - length result) in
      let longer : length (result ++ take n hash) ≡ length result + n = omega (
        arith,
        length-append result (take n hash),
        length-take n hash,
        digest (d ++ sha256 (le_bytes 8 i ++ s)),
      ) in
      elim (Bool-cases (ltb (length result) wanted)) [
        | inl more ↦
            let room : length result < wanted = ground (arith, more) in
            rw more (
              sample_loop-length digest fuel wanted d s (result ++ take n hash) (suc i)
                (omega (arith, longer)) (omega (arith, longer, room)))
        | inr full ↦ rw full (ground (arith, full))
      ]

  -- For a digest of 32 bytes the expansion ends, with as many bytes as are asked for.
  pub length-sample_bytes :
      ((m : List ℕ) → length (sha256 m) ≡ 32)
      → (wanted : ℕ) (domain_separator seed : List ℕ)
      → length (sample_bytes wanted domain_separator seed) ≡ wanted
  unfolding sample_bytes
  length-sample_bytes digest wanted domain_separator seed =
      sample_loop-length digest wanted wanted domain_separator seed [] 0 (omega arith) (omega arith)

-- `DustSecretKey.public_key`.
unfoldable pub dust_public_key : ℕ → List ℕ
dust_public_key sk = to_bytes (transient_hash (of_bytes fr_modulus (codes "mdn:dust:pk") ∷ sk ∷ []))

unfoldable pub hash_to_field : List ℕ → Result ℕ
hash_to_field data_ =
    if ltb 31 (length data_)
    then err not_implemented_error
    else ok (
        transient_hash
          (of_bytes fr_modulus (codes "midnight:field_hash") ∷ of_bytes fr_modulus data_ ∷ []))
