-- ===== src/Crypto/Keys.antt =====
-- `KeyDerivation`, `Sr25519Signer` and `SpendingKey` of src/noxipher/crypto/keys.py. The word list,
-- PBKDF2, HMAC, the hashes and the sr25519 bindings are a parameter, `KeyLibrary`; the bindings are
-- missing in it where the import fails. Account, role and index are numbers that are not negative.
use noxipher.Prelude.{
  ℕ, ◌/◌, ◌%◌, ◌^◌, Bool, not, List, [], ◌∷◌, ◌++◌, Option, none, some, bit_or, codes, length, take,
  drop, ltb, ◌==◌, list_eq, if◌then◌else◌,
}
use noxipher.Core.Exceptions.{
  Result, ok, err, ◌>>=◌, ◌>>◌, raise_if, assertion_error, invalid_mnemonic_error, struct_error,
}
use noxipher.Core.Config.{Network}
use noxipher.Address.Codec.{encode_address}
pub mod Messages
pub mod Derivation
pub mod Spending

-- `pair_from_seed` gives a public and a private key.
pub record Sr25519 : Type 0 where
  pub pair_from_seed : List ℕ → Result (List ℕ × List ℕ)
  pub sign : List ℕ × List ℕ → List ℕ → List ℕ
  pub verify : List ℕ → List ℕ → List ℕ → Bool

pub record KeyLibrary : Type 0 where
  pub check : List ℕ → Bool
  pub to_seed : List ℕ → List ℕ
  pub hmac_sha512 : List ℕ → List ℕ → List ℕ
  pub blake2b : List ℕ → List ℕ
  pub sha256 : List ℕ → List ℕ
  pub sr25519 : Option Sr25519

abbrev pub midnight_coin_type : ℕ
midnight_coin_type = 2400

abbrev pub hardened : ℕ
hardened = 2 ^ 31

-- `Roles`
abbrev pub night_external : ℕ
night_external = 0

abbrev pub dust : ℕ
dust = 2

abbrev pub zswap : ℕ
zswap = 3

-- `struct.pack(">I", n)`
unfoldable pub pack_u32 : ℕ → Result (List ℕ)
pack_u32 n =
    if ltb n (2 ^ 32)
    then ok ((n / 2 ^ 24) ∷ (n / 2 ^ 16 % 256) ∷ (n / 2 ^ 8 % 256) ∷ (n % 256) ∷ [])
    else err struct_error

-- What `_ckd_hardened` and `_ckd_normal` hand to HMAC.
unfoldable pub hardened_message : List ℕ → ℕ → Result (List ℕ)
hardened_message parent_key index = do
  suffix ← pack_u32 (bit_or index hardened)
  ok ((0 ∷ []) ++ parent_key ++ suffix)

unfoldable pub normal_message : List ℕ → ℕ → Result (List ℕ)
normal_message pub_bytes index = do suffix ← pack_u32 index; ok (pub_bytes ++ suffix)

-- `i_bytes[:32], i_bytes[32:]`
unfoldable pub halves : List ℕ → List ℕ × List ℕ
halves i_bytes = (take 32 i_bytes, drop 32 i_bytes)

-- The dictionary of `derive_all_roles`, one field for each of its keys.
pub record RoleKeys : Type 0 where
  pub night_key : List ℕ
  pub zswap_seed : List ℕ
  pub dust_seed : List ℕ

pub record Sr25519Signer : Type 0 where
  pub public_key : List ℕ
  pub private_key : List ℕ

pub record SpendingKey : Type 0 where
  pub keys : RoleKeys
  pub signer : Sr25519Signer
  pub network : Network

module _ (lib : KeyLibrary) where
  unfoldable pub mnemonic_to_seed : List ℕ → Result (List ℕ)
  mnemonic_to_seed mnemonic = do
    raise_if (not (lib.check mnemonic)) invalid_mnemonic_error
    let seed_64 = lib.to_seed mnemonic
    raise_if (not (length seed_64 == 64)) assertion_error
    ok seed_64

  -- `_derive_master`
  unfoldable pub derive_master : List ℕ → List ℕ × List ℕ
  derive_master seed_64 = halves (lib.hmac_sha512 (codes "Bitcoin seed") seed_64)

  -- `_ckd_hardened`
  unfoldable pub ckd_hardened : List ℕ → List ℕ → ℕ → Result (List ℕ × List ℕ)
  ckd_hardened parent_key parent_cc index = do
    data_ ← hardened_message parent_key index
    ok (halves (lib.hmac_sha512 parent_cc data_))

  -- The key pair of a seed; without the bindings the seed is the private key and its hash the
  -- public key. `Sr25519Signer.__init__`, and the public key in `_ckd_normal`.
  unfoldable pub key_pair : Option Sr25519 → List ℕ → Result (List ℕ × List ℕ)
  key_pair none seed = ok (lib.blake2b seed, seed)
  key_pair (some bindings) seed = bindings.pair_from_seed seed

  -- `_ckd_normal`
  unfoldable pub ckd_normal : List ℕ → List ℕ → ℕ → Result (List ℕ × List ℕ)
  ckd_normal parent_key parent_cc index = do
    (pub_bytes, private_key) ← key_pair lib.sr25519 parent_key
    data_ ← normal_message pub_bytes index
    ok (halves (lib.hmac_sha512 parent_cc data_))

  -- m/44'/2400'/account'/role/index
  unfoldable pub derive_key : List ℕ → ℕ → ℕ → ℕ → Result (List ℕ)
  derive_key seed_64 account role index = do
    let (master, master_cc) = derive_master seed_64
    (purpose, purpose_cc) ← ckd_hardened master master_cc 44
    (coin, coin_cc) ← ckd_hardened purpose purpose_cc midnight_coin_type
    (owner, owner_cc) ← ckd_hardened coin coin_cc account
    (role_key, role_cc) ← ckd_normal owner owner_cc role
    (k, cc_) ← ckd_normal role_key role_cc index
    ok k

  unfoldable pub derive_all_roles : List ℕ → ℕ → ℕ → Result RoleKeys
  derive_all_roles seed_64 account index = do
    night ← derive_key seed_64 account night_external index
    shielded ← derive_key seed_64 account zswap index
    fee ← derive_key seed_64 account dust index
    ok (record { night_key = night; zswap_seed = shielded; dust_seed = fee })

  unfoldable pub new_signer : List ℕ → Result Sr25519Signer
  new_signer secret_key_bytes = do
    (pub_, priv) ← key_pair lib.sr25519 secret_key_bytes
    ok (record { public_key = pub_; private_key = priv })

  unfoldable pub sign_with : Option Sr25519 → Sr25519Signer → List ℕ → List ℕ
  sign_with none signer data_ = lib.hmac_sha512 signer.private_key data_
  sign_with (some bindings) signer data_ =
      bindings.sign (signer.public_key, signer.private_key) data_

  unfoldable pub verify_with : Option Sr25519 → Sr25519Signer → List ℕ → List ℕ → Bool
  verify_with none signer signature data_ =
      list_eq (lib.hmac_sha512 signer.private_key data_) signature
  verify_with (some bindings) signer signature data_ =
      bindings.verify signature data_ signer.public_key

  unfoldable pub sign : Sr25519Signer → List ℕ → List ℕ
  sign signer data_ = sign_with lib.sr25519 signer data_

  unfoldable pub verify : Sr25519Signer → List ℕ → List ℕ → Bool
  verify signer signature data_ = verify_with lib.sr25519 signer signature data_

  unfoldable pub compute_address : Sr25519Signer → Network → Result (List ℕ)
  compute_address signer network =
      encode_address (lib.sha256 signer.public_key) (codes "unshielded") network

  unfoldable pub new_spending_key : List ℕ → Network → ℕ → Result SpendingKey
  new_spending_key mnemonic network account = do
    seed_64 ← mnemonic_to_seed mnemonic
    keys ← derive_all_roles seed_64 account 0
    signer ← new_signer keys.night_key
    ok (record { keys = keys; signer = signer; network = network })

  -- `SpendingKey.from_mnemonic`
  unfoldable pub from_mnemonic : List ℕ → Network → Result SpendingKey
  from_mnemonic mnemonic network = new_spending_key mnemonic network 0
