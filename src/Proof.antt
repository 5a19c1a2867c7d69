-- ===== src/Proof.antt =====
-- cpp/include/faircross/proof and cpp/src/proof: the transparent proofs of batches and of sessions.
pub mod R1cs
pub mod Statement
pub mod Constraints
pub mod Prover
pub mod Verifier
pub mod Session
