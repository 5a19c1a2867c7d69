-- ===== src/Tests/Simulator.antt =====
-- A draw of a number between bounds.
use fair_cross.Prelude.{ℕ, ◌≤◌, ◌≡◌, ◌⊎◌, none, some, arith}
use fair_cross.Domain.Words.{max_u64}
use fair_cross.Simulator.Rng.{gen_range_u64, gen_range_u64_bounds}

abbrev lowest : ℕ
lowest = 90

abbrev highest : ℕ
highest = 110

gen_range_u64_bounds_example :
    ((lowest ≡ 0) × (highest ≡ max_u64) × (gen_range_u64 lowest highest 42 ≡ none))
    ⊎ ((value : ℕ) × (next : ℕ) × (gen_range_u64 lowest highest 42 ≡ some (value, next))
        × (lowest ≤ value)
        × (value ≤ highest))
gen_range_u64_bounds_example = gen_range_u64_bounds lowest highest 42 (omega arith) (omega arith)
