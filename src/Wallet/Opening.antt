-- ===== src/Wallet/Opening.antt =====
-- How a wallet is opened: `__init__` of src/noxipher/wallet/unshielded.py, shielded.py, dust.py and
-- wallet.py, and the viewing key of the shielded wallet.
use noxipher.Prelude.{ℕ, List, ◌++◌, codes}
use noxipher.Core.Exceptions.{Result, ok, ◌>>=◌}
use noxipher.Core.Config.{Network}
use noxipher.Address.Codec.{encode_address}
use noxipher.Crypto.Hash.{zswap_from_seed, coin_public_key, encryption_public_key}
use noxipher.Crypto.Keys.{KeyLibrary, new_signer, sign, compute_address, from_mnemonic}
use noxipher.Wallet.Hex.{hex}
use noxipher.Wallet.Wallets.{UnshieldedWallet, DustWallet, ShieldedWallet, MidnightWallet}
use noxipher.Zswap.State.{initial_state}

module _ (lib : KeyLibrary) where
  unfoldable pub new_unshielded_wallet : List ℕ → Network → Result UnshieldedWallet
  new_unshielded_wallet key_bytes network = do
    signer ← new_signer lib key_bytes
    address ← compute_address lib signer network
    ok (record { public_key = signer.public_key; address = address; sign = sign lib signer })

  unfoldable pub new_shielded_wallet : List ℕ → Network → Result ShieldedWallet
  new_shielded_wallet shielded_seed network = do
    keys ← zswap_from_seed lib.sha256 shielded_seed
    let coin_pk = coin_public_key lib.sha256 keys
    let enc_pk = encryption_public_key lib.sha256 keys
    address ← encode_address (coin_pk ++ enc_pk) (codes "shielded") network
    ok (record {
      coin_secret_key = keys.coin_secret_key;
      coin_public_key = coin_pk;
      encryption_public_key = enc_pk;
      address = address;
    })

  unfoldable pub new_dust_wallet : List ℕ → Network → Result DustWallet
  new_dust_wallet dust_seed network = do
    signer ← new_signer lib dust_seed
    ok (record { public_key = signer.public_key; network = network; sign = sign lib signer })

  -- `MidnightWallet.__init__`. The account is not handed on.
  unfoldable pub new_wallet : List ℕ → Network → ℕ → Result MidnightWallet
  new_wallet mnemonic network account = do
    spending_key ← from_mnemonic lib mnemonic network
    unshielded ← new_unshielded_wallet spending_key.keys.night_key network
    shielded ← new_shielded_wallet spending_key.keys.zswap_seed network
    dust ← new_dust_wallet spending_key.keys.dust_seed network
    ok (record {
      unshielded = unshielded;
      shielded = shielded;
      dust = dust;
      shielded_state = initial_state;
      network = network;
    })

unfoldable pub viewing_key : ShieldedWallet → List ℕ
viewing_key wallet = hex (wallet.coin_public_key ++ wallet.encryption_public_key)
