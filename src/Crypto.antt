-- ===== src/Crypto.antt =====
-- src/noxipher/crypto: field elements, the Poseidon hash and the two-level hash expansion.
pub mod Fields
pub mod PoseidonConstants
pub mod Poseidon
pub mod Curves
pub mod Hash
pub mod Keys
pub mod Tests
