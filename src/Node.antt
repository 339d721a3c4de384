-- ===== src/Node.antt =====
-- src/noxipher/node/client.py: the RPC client of a Midnight node.
pub mod Json
pub mod Connection
pub mod Rpc
pub mod Submission
pub mod Metadata
pub mod Lifecycle
mod Tests
