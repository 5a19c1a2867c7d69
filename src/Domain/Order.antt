-- ===== src/Domain/Order.antt =====
-- cpp/include/faircross/domain/order.hpp: sides and limit orders. `Side` is an `enum class` over
-- one byte; a byte that is neither enumerator is `invalid`.
use fair_cross.Prelude.{ℕ, Bool, true, false, ◌==◌, ◌<◌, List}
use fair_cross.Domain.Words.{OrderId, AccountId, InstrumentId, Price, Qty, u64_mod}

pub data Side : Type 0 where
  buy sell : Side
  invalid : ℕ → Side

abbrev pub is_buy : Side → Bool
is_buy buy = true
is_buy _ = false

abbrev pub is_sell : Side → Bool
is_sell buy = false
is_sell sell = true
is_sell (invalid n) = false

-- `==` on sides.
abbrev pub same_side : Side → Side → Bool
same_side buy buy = true
same_side buy sell = false
same_side buy (invalid n) = false
same_side sell buy = false
same_side sell sell = true
same_side sell (invalid n) = false
same_side (invalid m) buy = false
same_side (invalid m) sell = false
same_side (invalid m) (invalid n) = m == n

pub record Order : Type 0 where
  pub id : OrderId
  pub account : AccountId
  pub instrument : InstrumentId
  pub side : Side
  pub price : Price
  pub qty : Qty
  pub seq : ℕ

-- A salted order: the 32 bytes of the nonce as a list.
pub record SaltedOrderPreimage : Type 0 where
  pub order : Order
  pub nonce : List ℕ

-- The fields fit their 64-bit types.
pub record IsWordOrder (o : Order) : Type 0 where
  pub price_fits : o.price < u64_mod
  pub qty_fits : o.qty < u64_mod
