-- ===== src/Zswap.antt =====
-- src/noxipher/zswap: coin notes, the Merkle tree of commitments and the wallet's shielded state.
pub mod Notes
pub mod MerkleTree
pub mod Levels
pub mod Root
pub mod Membership
pub mod State
pub mod Balances
mod Tests
