-- ===== src/Domain/Price.antt =====
-- cpp/include/faircross/domain/primitives.hpp: class `Price`.
use fair_cross.Prelude.{◌+◌, ◌-◌, ltb, leb, ◌==◌, if◌then◌else◌}
use fair_cross.Domain.Error.{Result, ok, err, overflow, insufficient, primitive_error, zero_value}
use fair_cross.Domain.Words.{Price, max_u64}

unfoldable pub create : Price → Result Price
create raw = if raw == 0 then err (primitive_error zero_value "Price") else ok raw

unfoldable pub checked_add : Price → Price → Result Price
checked_add a b = if ltb (max_u64 - b) a then err (overflow "Price::checked_add") else ok (a + b)

unfoldable pub checked_sub : Price → Price → Result Price
checked_sub a b =
    if leb a b
    then if a == b then err (primitive_error zero_value "Price") else err (insufficient "Price")
    else ok (a - b)
