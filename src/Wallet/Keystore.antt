-- ===== src/Wallet/Keystore.antt =====
-- `Keystore` of src/noxipher/wallet/keystore.py. Argon2id and AES-GCM are a parameter, `Ciphers`;
-- the salt and the nonce are what `secrets` gives. The file that holds the JSON is not modelled.
use noxipher.Prelude.{ℕ, ◌≡◌, List, All, IsByte}
use noxipher.Core.Exceptions.{Result, ok, ◌>>=◌, >>=-eq-ok}
use noxipher.Wallet.Hex.{hex, fromhex, fromhex-hex}
use noxipher.Tx.Compact.{encode_text}

pub record Ciphers : Type 0 where
  pub hash_secret_raw :
      (secret salt : List ℕ) (time_cost memory_cost parallelism hash_len : ℕ) → Result (List ℕ)
  pub aes_encrypt : (key nonce data_ : List ℕ) → Result (List ℕ)
  pub aes_decrypt : (key nonce ciphertext : List ℕ) → Result (List ℕ)

-- The dict, less the names of the cipher and of the derivation. Byte strings are texts in hex.
pub record KeystoreFile : Type 0 where
  pub version : ℕ
  pub ciphertext : List ℕ
  pub nonce : List ℕ
  pub salt : List ℕ
  pub time_cost : ℕ
  pub memory_cost : ℕ
  pub parallelism : ℕ
  pub hash_len : ℕ

abbrev pub argon2_time_cost : ℕ
argon2_time_cost = 3

abbrev pub argon2_memory_cost : ℕ
argon2_memory_cost = 65_536

abbrev pub argon2_parallelism : ℕ
argon2_parallelism = 4

abbrev pub argon2_hash_len : ℕ
argon2_hash_len = 32

module _ (lib : Ciphers) where
  unfoldable pub encrypt : List ℕ → List ℕ → List ℕ → List ℕ → Result KeystoreFile
  encrypt salt nonce data_ password = do
    secret ← encode_text password
    key ←
        lib.hash_secret_raw secret salt argon2_time_cost argon2_memory_cost argon2_parallelism
          argon2_hash_len
    ciphertext ← lib.aes_encrypt key nonce data_
    ok (record {
      version = 1;
      ciphertext = hex ciphertext;
      nonce = hex nonce;
      salt = hex salt;
      time_cost = argon2_time_cost;
      memory_cost = argon2_memory_cost;
      parallelism = argon2_parallelism;
      hash_len = argon2_hash_len;
    })

  unfoldable pub decrypt : KeystoreFile → List ℕ → Result (List ℕ)
  decrypt keystore password = do
    secret ← encode_text password
    salt ← fromhex keystore.salt
    key ←
        lib.hash_secret_raw secret salt keystore.time_cost keystore.memory_cost keystore.parallelism
          keystore.hash_len
    ciphertext ← fromhex keystore.ciphertext
    nonce ← fromhex keystore.nonce
    lib.aes_decrypt key nonce ciphertext

  -- For a cipher that opens what it closed and writes bytes: what is encrypted under a password,
  -- with a salt and a nonce made of bytes, is decrypted under it.
  pub decrypt-encrypt :
      ((key nonce data_ ciphertext : List ℕ)
        → (lib.aes_encrypt key nonce data_ ≡ ok ciphertext)
        → (lib.aes_decrypt key nonce ciphertext ≡ ok data_) × All IsByte ciphertext)
      → (salt nonce data_ password : List ℕ) (keystore : KeystoreFile) → All IsByte salt
      → All IsByte nonce
      → encrypt salt nonce data_ password ≡ ok keystore
      → decrypt keystore password ≡ ok data_
  unfolding encrypt decrypt
  decrypt-encrypt opens salt nonce data_ password keystore salt_bytes nonce_bytes h =
      let (secret, encoded, h1) = >>=-eq-ok (encode_text password) _ h in
      let (key, derived, h2) =
        >>=-eq-ok
          (lib.hash_secret_raw secret salt argon2_time_cost argon2_memory_cost argon2_parallelism
            argon2_hash_len)
          _ h1 in
      let (ciphertext, closed, h3) = >>=-eq-ok (lib.aes_encrypt key nonce data_) _ h2 in
      let (opened, bytes) = opens key nonce data_ ciphertext closed in
      let same : record {
        version = 1;
        ciphertext = hex ciphertext;
        nonce = hex nonce;
        salt = hex salt;
        time_cost = argon2_time_cost;
        memory_cost = argon2_memory_cost;
        parallelism = argon2_parallelism;
        hash_len = argon2_hash_len;
      }
          ≡ keystore =
        cc h3 in
      rw
        (
          ← same,
          encoded,
          fromhex-hex salt salt_bytes,
          derived,
          fromhex-hex ciphertext bytes,
          fromhex-hex nonce nonce_bytes,
        )
        opened
