-- ===== src/Domain/Money.antt =====
-- cpp/include/faircross/domain/primitives.hpp: class `Money`.
use native.Mathlib.Nat.{le-div_iff_mul-le}
use fair_cross.Prelude.{
  zero, suc, refl, not, ◌&&◌, ◌+◌, ◌-◌, ◌*◌, ◌/◌, ◌≤◌, ◌<◌, ◌≡◌, ltb, ◌==◌, if◌then◌else◌, arith,
}
use fair_cross.Domain.Error.{Result, ok, err, overflow, insufficient}
use fair_cross.Domain.Words.{Money, Price, Qty, max_u128, u64_mod, u128_mod, mul-lt-u128_mod}

unfoldable pub from_price_qty : Price → Qty → Result Money
from_price_qty p q =
    if not (p == 0) && ltb (max_u128 / p) q
    then err (overflow "Money::from_price_qty")
    else ok (p * q)

unfoldable pub checked_add : Money → Money → Result Money
checked_add a b = if ltb (max_u128 - b) a then err (overflow "Money::checked_add") else ok (a + b)

unfoldable pub checked_sub : Money → Money → Result Money
checked_sub a b = if ltb a b then err (insufficient "Money") else ok (a - b)

-- The product of a 64-bit price and a 64-bit quantity is never refused, and is exact.
pub from_price_qty_exact :
    (p : Price) (q : Qty) → p < u64_mod → q < u64_mod → from_price_qty p q ≡ ok (p * q)
unfolding from_price_qty
from_price_qty_exact zero q hp hq = refl
from_price_qty_exact (suc p) q hp hq = ground (
  arith,
  (le-div_iff_mul-le {k = suc p} {x = q} {y = max_u128} (omega arith)).1,
  mul-lt-u128_mod q (suc p) hq hp,
)

pub from_price_qty-eq-ok : (p : Price) (q : Qty) {m : Money} → from_price_qty p q ≡ ok m → m ≡ p * q
unfolding from_price_qty
from_price_qty-eq-ok p q e = ground arith

pub checked_add_fits : (a b : Money) → a + b < u128_mod → checked_add a b ≡ ok (a + b)
unfolding checked_add
checked_add_fits a b h = ground arith

pub checked_add-eq-ok :
    (a b : Money) {c : Money}
    → b < u128_mod
    → checked_add a b ≡ ok c
    → (c ≡ a + b) × (a + b < u128_mod)
unfolding checked_add
checked_add-eq-ok a b h e = ground arith

pub checked_sub-eq-ok : (a b : Money) {c : Money} → checked_sub a b ≡ ok c → (c ≡ a - b) × (b ≤ a)
unfolding checked_sub
checked_sub-eq-ok a b e = ground arith

pub checked_sub_fits : (a b : Money) → b ≤ a → checked_sub a b ≡ ok (a - b)
unfolding checked_sub
checked_sub_fits a b h = ground arith
