-- ===== src/Contract.antt =====
-- src/noxipher/contract: compiled contracts, their deployment and their calls.
pub mod Compact
pub mod Instance
mod Tests
