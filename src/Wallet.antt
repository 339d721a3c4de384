-- ===== src/Wallet.antt =====
-- src/noxipher/wallet: what the builder uses of it.
pub mod Hex
pub mod Utxo
pub mod Wallets
pub mod Opening
pub mod Addresses
pub mod Keystore
pub mod UnshieldedBalance
pub mod Sync
pub mod DustStatus
mod Tests
