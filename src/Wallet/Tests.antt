-- ===== src/Wallet/Tests.antt =====
-- The wallets of src/noxipher/wallet on concrete keys.
use noxipher.Prelude.{
  ℕ, List, ◌⊎◌, arith, Bool, true, ◌&&◌, ltb, All, IsByte, Bool-cases, inl, inr, ap, sym,
  if◌then◌else◌, ◌≡◌, refl, [], ◌∷◌, ◌++◌, none, some, codes, list_eq,
}
use noxipher.Prelude.Digits.{from_le_bytes, le_bytes-IsByte}
use noxipher.Core.Exceptions.{Exception, Result, ok, err, value_error}
use noxipher.Core.Config.{preprod, network_eq, network_index}
use noxipher.Address.Codec.{hrp_table, hrp_of, decode_address}
use noxipher.Crypto.Tests.{toy, toy_digest, toy_pairs}
use noxipher.Wallet.Wallets.{MidnightWallet}
use noxipher.Wallet.Opening.{new_wallet}
use noxipher.Wallet.Addresses.{new_wallet_addresses}
use noxipher.Tx.Compact.{utf8_char, encode_text}
use noxipher.Wallet.Hex.{hex, hex_digit}
use noxipher.Wallet.Utxo.{Utxo, text}
use noxipher.Wallet.Wallets.{UnshieldedWallet, ShieldedWallet}
use noxipher.Wallet.Opening.{viewing_key}
use noxipher.Wallet.Keystore.{Ciphers, KeystoreFile, encrypt, decrypt, decrypt-encrypt}
use noxipher.Wallet.UnshieldedBalance.{
  Balances, get_unshielded_balance, balance_at, held, get_unshielded_balance_lem,
}
use noxipher.Indexer.PlainModels.{plain_models}
use noxipher.Indexer.SampleAnswers.{sample_execute, sample_execute-AnswersDocuments}
use noxipher.Wallet.DustStatus.{get_generation_status, get_generation_status_raises}
use noxipher.Wallet.Sync.{
  Stream, transaction_found, transaction_progress, connect_call, subscribe_call, disconnect_call,
  sync_shielded, found_coins, sync_shielded_closes,
}

unshielded_prefix : hrp_of hrp_table (codes "unshielded") preprod ≡ some (codes "mn_addr_preprod")
unfolding hrp_of hrp_table list_eq network_eq network_index
unshielded_prefix = refl

shielded_prefix :
    hrp_of hrp_table (codes "shielded") preprod ≡ some (codes "mn_shield-addr_preprod")
unfolding hrp_of hrp_table list_eq network_eq network_index
shielded_prefix = refl

new_wallet_addresses_example :
    (w : MidnightWallet) × (new_wallet toy (1 ∷ []) preprod 0 ≡ ok w)
    × (decode_address w.unshielded.address
        ≡ ok (codes "unshielded", preprod, toy.sha256 w.unshielded.public_key))
    × (decode_address w.shielded.address
        ≡ ok (
          codes "shielded",
          preprod,
          w.shielded.coin_public_key ++ w.shielded.encryption_public_key,
        ))
new_wallet_addresses_example =
    new_wallet_addresses toy toy_digest toy_pairs (λ m. refl)
      (λ m. le_bytes-IsByte 32 (from_le_bytes m)) (1 ∷ []) (codes "mn_addr_preprod")
      (codes "mn_shield-addr_preprod") preprod 0 refl unshielded_prefix shielded_prefix

bytes_only : List ℕ → Bool
bytes_only [] = true
bytes_only (b ∷ bs) = ltb b 256 && bytes_only bs

bytes_only-IsByte : (bs : List ℕ) → bytes_only bs ≡ true → All IsByte bs
unfolding bytes_only
bytes_only-IsByte [] h = tt
bytes_only-IsByte (b ∷ bs) h = (ground (arith, h), bytes_only-IsByte bs (ground (arith, h)))

-- A cipher that writes what it reads, if that is bytes.
abbrev open_cipher : Ciphers
open_cipher = record {
  hash_secret_raw = λ secret salt time_cost memory_cost parallelism hash_len. ok (salt ++ secret);
  aes_encrypt = λ key nonce message. if bytes_only message then ok message else err value_error;
  aes_decrypt = λ key nonce ciphertext. ok ciphertext;
}

cipher_opens :
    (key nonce message ciphertext : List ℕ)
    → (open_cipher.aes_encrypt key nonce message ≡ ok ciphertext)
    → (open_cipher.aes_decrypt key nonce ciphertext ≡ ok message) × All IsByte ciphertext
cipher_opens key nonce message ciphertext h = elim (Bool-cases (bytes_only message)) [
  | inr bad ↦ cc (rw bad at h)
  | inl good ↦
      let plain : message ≡ ciphertext = cc (rw good at h) in
      (ap ok (sym plain), bytes_only-IsByte ciphertext (rw (← plain) good))
]

abbrev stored : KeystoreFile
stored = record {
  version = 1;
  ciphertext = codes "0aff";
  nonce = codes "02";
  salt = codes "01";
  time_cost = 3;
  memory_cost = 65_536;
  parallelism = 4;
  hash_len = 32;
}

encrypted : encrypt open_cipher (1 ∷ []) (2 ∷ []) (10 ∷ 255 ∷ []) (codes "pw") ≡ ok stored
unfolding encrypt encode_text utf8_char hex hex_digit bytes_only
encrypted = refl

decrypt-encrypt_example : decrypt open_cipher stored (codes "pw") ≡ ok (10 ∷ 255 ∷ [])
decrypt-encrypt_example =
    decrypt-encrypt open_cipher cipher_opens (1 ∷ []) (2 ∷ []) (10 ∷ 255 ∷ []) (codes "pw") stored
      (omega arith, tt) (omega arith, tt) encrypted

abbrev coin : ℕ → Utxo
coin v = record {
  value = some v;
  token_type = some (text (codes "aa"));
  token_type_camel = none;
  intent_hash = none;
  intent_hash_camel = none;
  output_no = none;
  output_no_camel = none;
}

abbrev purse : UnshieldedWallet
purse = record { public_key = []; address = codes "mn_addr"; sign = λ m. m }

get_unshielded_balance_lem_example :
    (balances : Balances) × (get_unshielded_balance (λ address. ok (coin 3 ∷ coin 4 ∷ [])) purse
      ≡ ok balances)
    × (balance_at (codes "aa") balances ≡ held (codes "aa") (coin 3 ∷ coin 4 ∷ []))
get_unshielded_balance_lem_example =
    get_unshielded_balance_lem (λ address. ok (coin 3 ∷ coin 4 ∷ [])) purse (coin 3 ∷ coin 4 ∷ [])
      (codes "aa") refl

abbrev hidden : ShieldedWallet
hidden = record {
  coin_secret_key = [];
  coin_public_key = 1 ∷ [];
  encryption_public_key = 2 ∷ [];
  address = [];
}

abbrev stream : List ℕ → Stream ℕ
stream session = record {
  events = transaction_found (some (7 ∷ [])) ∷ transaction_progress ∷ [];
  ending = ok tt;
}

abbrev answer_open : List ℕ → Result (List ℕ)
answer_open key = ok (codes "session")

abbrev answer_close : List ℕ → Result (Unit {0})
answer_close session = ok tt

sync_shielded_closes_example :
    ((e : Exception) × (answer_open (viewing_key hidden) ≡ err e)
      × ((sync_shielded answer_open stream answer_close hidden).0
          ≡ connect_call (viewing_key hidden) ∷ [])
      × ((sync_shielded answer_open stream answer_close hidden).1 ≡ err e))
    ⊎ ((session : List ℕ) × (answer_open (viewing_key hidden) ≡ ok session)
        × ((sync_shielded answer_open stream answer_close hidden).0
            ≡ connect_call (viewing_key hidden)
              ∷ subscribe_call session
              ∷ disconnect_call session
              ∷ [])
        × (((e : Exception) × ((sync_shielded answer_open stream answer_close hidden).1 ≡ err e))
            ⊎ (((stream session).ending ≡ ok tt)
                × (answer_close session ≡ ok tt)
                × ((sync_shielded answer_open stream answer_close hidden).1
                    ≡ ok (found_coins (stream session).events)))))
sync_shielded_closes_example = sync_shielded_closes answer_open stream answer_close hidden

get_generation_status_raises_example :
    (e : Exception) × (get_generation_status sample_execute
        (record { opened = true })
        plain_models
        (codes "stake1")
      ≡ err e)
get_generation_status_raises_example =
    get_generation_status_raises sample_execute (record { opened = true }) plain_models
      (codes "stake1") sample_execute-AnswersDocuments
