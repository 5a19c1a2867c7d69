-- ===== src/Proof/Constraints.antt =====
-- cpp/include/faircross/proof/constraints.hpp and cpp/src/proof/constraints/: the subrelations of a batch
-- proof. Each takes the system with the scalars so far, and returns both; `std::to_string`, which the
-- labels use, is a parameter.
pub mod OrderValidity
pub mod CompleteInput
pub mod Clearing
pub mod FillBounds
pub mod Conservation
pub mod Oracle
