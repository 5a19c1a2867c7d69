-- ===== src/MarketData.antt =====
-- Market data: cpp/include/faircross/marketdata and cpp/src/marketdata.
pub mod Messages
pub mod Book
pub mod Parser
pub mod Replay
