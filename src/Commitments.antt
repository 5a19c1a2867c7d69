-- ===== src/Commitments.antt =====
-- cpp/include/faircross/commitments/: the hash function, the Merkle trees over it and what is committed.
pub mod Sha256
pub mod Bytes
pub mod Collision
pub mod Merkle
pub mod Payloads
pub mod LedgerRoot
