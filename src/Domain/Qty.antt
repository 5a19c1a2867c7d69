-- ===== src/Domain/Qty.antt =====
-- cpp/include/faircross/domain/primitives.hpp: class `Qty`.
use fair_cross.Prelude.{Bool, ◌+◌, ◌-◌, ◌≤◌, ◌<◌, ◌≡◌, ltb, ◌==◌, if◌then◌else◌, arith}
use fair_cross.Domain.Error.{Result, ok, err, overflow, insufficient, primitive_error, zero_value}
use fair_cross.Domain.Words.{Qty, max_u64, u64_mod}

unfoldable pub create : Qty → Result Qty
create raw = if raw == 0 then err (primitive_error zero_value "Qty") else ok raw

unfoldable pub is_zero : Qty → Bool
is_zero a = a == 0

unfoldable pub checked_add : Qty → Qty → Result Qty
checked_add a b = if ltb (max_u64 - b) a then err (overflow "Qty::checked_add") else ok (a + b)

unfoldable pub checked_sub : Qty → Qty → Result Qty
checked_sub a b = if ltb a b then err (insufficient "Qty") else ok (a - b)

unfoldable pub saturating_sub : Qty → Qty → Qty
saturating_sub a b = if ltb a b then 0 else a - b

-- The addition gives the sum wherever the sum fits 64 bits.
pub checked_add_fits : (a b : Qty) → a + b < u64_mod → checked_add a b ≡ ok (a + b)
unfolding checked_add
checked_add_fits a b h = ground arith

-- A sum that it gives is exact and fits 64 bits, if the operands do.
pub checked_add-eq-ok :
    (a b : Qty) {c : Qty} → b < u64_mod → checked_add a b ≡ ok c → (c ≡ a + b) × (a + b < u64_mod)
unfolding checked_add
checked_add-eq-ok a b h e = ground arith

pub checked_sub-eq-ok : (a b : Qty) {c : Qty} → checked_sub a b ≡ ok c → (c ≡ a - b) × (b ≤ a)
unfolding checked_sub
checked_sub-eq-ok a b e = ground arith

pub checked_sub_fits : (a b : Qty) → b ≤ a → checked_sub a b ≡ ok (a - b)
unfolding checked_sub
checked_sub_fits a b h = ground arith
