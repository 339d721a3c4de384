-- ===== src/Proof.antt =====
-- src/noxipher/proof: the client of the proof server and the proofs of a transaction's circuits.
pub mod Client
pub mod Prover
pub mod Answered
mod Tests
