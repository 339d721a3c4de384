-- ===== src/Wallet/Wallets.antt =====
-- The wallets of src/noxipher/wallet that a transaction is built with. The key pair behind a
-- wallet is the public key and the signing function of the sr25519 bindings.
use noxipher.Prelude.{ℕ, List, ◌∷◌, codes, Bool, false}
use noxipher.Core.Exceptions.{Result, err, wallet_error, not_implemented_error}
use noxipher.Core.Config.{Network}
use noxipher.Address.Codec.{encode_address}
use noxipher.Zswap.State.{ZswapState}

pub record UnshieldedWallet : Type 0 where
  pub public_key : List ℕ
  pub address : List ℕ
  pub sign : List ℕ → List ℕ

pub record DustWallet : Type 0 where
  pub public_key : List ℕ
  pub network : Network
  pub sign : List ℕ → List ℕ

-- `DustWallet.address`.
unfoldable pub dust_address : DustWallet → Result (List ℕ)
dust_address w = encode_address (0x73 ∷ w.public_key) (codes "dust") w.network

-- `DustWallet.can_transfer`, `transfer` and `register_night_utxos`.
unfoldable pub can_transfer : DustWallet → Bool
can_transfer w = false

unfoldable pub transfer_dust : DustWallet → Result (Unit {0})
transfer_dust w = err wallet_error

unfoldable pub register_night_utxos : DustWallet → Result (Unit {0})
register_night_utxos w = err not_implemented_error

-- The keys and the address of the shielded wallet.
pub record ShieldedWallet : Type 0 where
  pub coin_secret_key : List ℕ
  pub coin_public_key : List ℕ
  pub encryption_public_key : List ℕ
  pub address : List ℕ

pub record MidnightWallet : Type 0 where
  pub unshielded : UnshieldedWallet
  pub shielded : ShieldedWallet
  pub dust : DustWallet
  pub shielded_state : ZswapState
  pub network : Network
