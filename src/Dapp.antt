-- ===== src/Dapp.antt =====
-- src/noxipher/dapp.
pub mod Connector
pub mod Balancing
pub mod Submission
mod Tests
