-- ===== src/Simulator.antt =====
-- cpp/include/faircross/simulator: the random numbers of the simulated markets.
pub mod Rng
