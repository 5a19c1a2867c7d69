-- ===== src/Domain/Words.antt =====
-- cpp/include/faircross/domain/primitives.hpp: the machine widths, the strongly typed numbers (each
-- the raw number inside its class), and the unsigned arithmetic that the source leaves unchecked.
use fair_cross.Prelude.{ℕ, ◌+◌, ◌-◌, ◌*◌, ◌%◌, ◌≤◌, ◌<◌, ◌≡◌, arith}

abbrev pub u64_mod : ℕ
u64_mod = 18446744073709551616

abbrev pub u128_mod : ℕ
u128_mod = 340282366920938463463374607431768211456

-- `Price::MAX_RAW` and `Qty::MAX_RAW`.
abbrev pub max_u64 : ℕ
max_u64 = 18446744073709551615

-- `Money::MAX_RAW`.
abbrev pub max_u128 : ℕ
max_u128 = 340282366920938463463374607431768211455

abbrev pub Price : Type 0
Price = ℕ

abbrev pub Qty : Type 0
Qty = ℕ

abbrev pub Money : Type 0
Money = ℕ

abbrev pub OrderId : Type 0
OrderId = ℕ

abbrev pub AccountId : Type 0
AccountId = ℕ

abbrev pub InstrumentId : Type 0
InstrumentId = ℕ

abbrev pub BatchId : Type 0
BatchId = ℕ

-- Unchecked `uint64_t` and `unsigned __int128` arithmetic wraps around.
unfoldable pub add64 : ℕ → ℕ → ℕ
add64 a b = (a + b) % u64_mod

unfoldable pub sub64 : ℕ → ℕ → ℕ
sub64 a b = (a + u64_mod - b) % u64_mod

unfoldable pub mul128 : ℕ → ℕ → ℕ
mul128 a b = (a * b) % u128_mod

-- `static_cast<uint64_t>`.
unfoldable pub to_u64 : ℕ → ℕ
to_u64 a = a % u64_mod

-- Where nothing overflows the machine operations are the exact ones.
pub add64-eq : (a b : ℕ) → a + b < u64_mod → add64 a b ≡ a + b
unfolding add64
add64-eq a b h = omega arith

pub sub64-eq : (a b : ℕ) → b ≤ a → a < u64_mod → sub64 a b ≡ a - b
unfolding sub64
sub64-eq a b h k = omega arith

pub to_u64-eq : (a : ℕ) → a < u64_mod → to_u64 a ≡ a
unfolding to_u64
to_u64-eq a h = omega arith

-- A product of two 64-bit numbers fits 128 bits.
pub mul-lt-u128_mod : (a b : ℕ) → a < u64_mod → b < u64_mod → a * b < u128_mod
mul-lt-u128_mod a b h k = grind arith

pub mul128-eq : (a b : ℕ) → a < u64_mod → b < u64_mod → mul128 a b ≡ a * b
unfolding mul128
mul128-eq a b h k = omega (arith, mul-lt-u128_mod a b h k)
