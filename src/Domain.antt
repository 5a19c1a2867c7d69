-- ===== src/Domain.antt =====
-- The domain layer: cpp/include/faircross/domain.
pub mod Error
pub mod Words
pub mod Price
pub mod Qty
pub mod Money
pub mod Order
pub mod Account
pub mod Encoding
pub mod Ledger
pub mod Fill
pub mod Oracle
