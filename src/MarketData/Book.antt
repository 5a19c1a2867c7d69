-- ===== src/MarketData/Book.antt =====
-- cpp/include/faircross/marketdata/book.hpp and cpp/src/marketdata/book.cpp: the order book. A method
-- returns the new book, or the error with the book as it was, since each checks all before it writes.
pub mod Levels
pub mod Tally
pub mod Invariant
pub mod Best
use fair_cross.Prelude.{
  ℕ, ◌+◌, ◌-◌, ◌/◌, Bool, true, false, not, ◌||◌, ltb, leb, ◌==◌, if◌then◌else◌, [], ◌∷◌, Option,
  none, some,
}
use fair_cross.Prelude.OrdMap.{OrdMap, lookup, insert, erase}
use fair_cross.Domain.Error.{
  Result, Ok, ok_value, ok, err, ◌>>=◌, ◌>>◌, guard, converted, Error, primitive_error,
  domain_error, failed_with, invalid_side, zero_value, duplicate_order_id, account_not_found,
}
use fair_cross.Domain.Words.{Price, Qty, add64, sub64}
use fair_cross.Domain.Order.{Side, is_buy, is_sell}
use fair_cross.Domain.Price
use fair_cross.Domain.Qty
use fair_cross.Engine.Auction.{midpoint, ok_price}
use fair_cross.MarketData.Messages.{
  ItchMessage, system_event, stock_directory, add_order_message, order_executed,
  order_executed_with_price, order_cancel, order_delete, order_replace,
}

pub record BookOrder : Type 0 where
  pub order_reference_number : ℕ
  pub side : Side
  pub price : Price
  pub shares : Qty

pub record OrderBook : Type 0 where
  pub last_timestamp_nanos : ℕ
  pub orders_by_ref : OrdMap BookOrder
  pub bids_by_price : OrdMap Qty
  pub asks_by_price : OrdMap Qty

abbrev pub empty_book : OrderBook
empty_book = record {
  last_timestamp_nanos = 0;
  orders_by_ref = [];
  bids_by_price = [];
  asks_by_price = [];
}

-- `(side == Side::Buy) ? bids_by_price_ : asks_by_price_`, read and written.
abbrev pub levels_of : Side → OrderBook → OrdMap Qty
levels_of side b = if is_buy side then b.bids_by_price else b.asks_by_price

abbrev pub with_levels : Side → OrdMap Qty → OrderBook → OrderBook
with_levels side levels b =
    if is_buy side then record b { bids_by_price = levels } else record b { asks_by_price = levels }

abbrev pub present {ℓ} : {A : Type ℓ} → Option A → Bool
present none = false
present (some a) = true

abbrev pub or_zero : Option Qty → Qty
or_zero none = 0
or_zero (some q) = q

-- The quantity of a level, 0 where there is none.
abbrev pub level_at : Price → OrdMap Qty → Qty
level_at p levels = or_zero (lookup p levels)

unfoldable pub add_order : ℕ → Side → Price → Qty → OrderBook → Result OrderBook
add_order ref_num side price shares b = do
  guard (is_buy side || is_sell side) (primitive_error invalid_side "OrderBook::add_order")
  guard (not (price == 0)) (primitive_error zero_value "Price")
  guard (not (Qty.is_zero shares)) (primitive_error zero_value "Qty")
  guard (not (present (lookup ref_num b.orders_by_ref)))
      (domain_error duplicate_order_id "Order already in book")
  total ← converted (Qty.checked_add (level_at price (levels_of side b)) shares)
  ok (
      with_levels side (insert price total (levels_of side b)) (record b {
        orders_by_ref =
            insert ref_num
              (record {
                order_reference_number = ref_num;
                side = side;
                price = price;
                shares = shares;
              })
              b.orders_by_ref;
      }))

-- `levels[p] = levels[p].saturating_sub(shares)`, where a missing level starts at 0.
abbrev pub take_from : Price → Qty → OrdMap Qty → OrdMap Qty
take_from p shares levels = insert p (Qty.saturating_sub (level_at p levels) shares) levels

-- `if (levels[p].is_zero()) levels.erase(p);`
abbrev pub drop_empty : Price → OrdMap Qty → OrdMap Qty
drop_empty p levels = if Qty.is_zero (level_at p levels) then erase p levels else levels

-- The branch of `execute_order` that removes the order.
unfoldable pub fill_order : ℕ → BookOrder → OrderBook → OrderBook
fill_order ref_num order b =
    let levels =
      drop_empty order.price (take_from order.price order.shares (levels_of order.side b)) in
    with_levels order.side levels (record b { orders_by_ref = erase ref_num b.orders_by_ref })

-- The branch that leaves a part of it.
unfoldable pub reduce_order : ℕ → BookOrder → Qty → OrderBook → OrderBook
reduce_order ref_num order shares b =
    let rest = record order { shares = Qty.saturating_sub order.shares shares } in
    with_levels order.side (take_from order.price shares (levels_of order.side b))
      (record b { orders_by_ref = insert ref_num rest b.orders_by_ref })

-- `execute_order` once the order is found.
unfoldable pub execute_found : ℕ → BookOrder → Qty → OrderBook → Result OrderBook
execute_found ref_num order shares b = do
  guard (not (Qty.is_zero shares)) (primitive_error zero_value "Qty")
  guard (leb shares order.shares) (failed_with "Executed quantity exceeds resting order")
  ok (
      if shares == order.shares
      then fill_order ref_num order b
      else reduce_order ref_num order shares b)

unfoldable pub execute_order : ℕ → Qty → OrderBook → Result OrderBook
unfolding execute_found
execute_order ref_num shares b = elim (lookup ref_num b.orders_by_ref) [
  | none ↦ err (domain_error account_not_found "Order not in book")
  | some order ↦ execute_found ref_num order shares b
]

unfoldable pub cancel_order : ℕ → Qty → OrderBook → Result OrderBook
cancel_order ref_num shares b = execute_order ref_num shares b

unfoldable pub delete_order : ℕ → OrderBook → Result OrderBook
delete_order ref_num b = elim (lookup ref_num b.orders_by_ref) [
  | none ↦ err (domain_error account_not_found "Order not in book")
  | some order ↦ execute_order ref_num order.shares b
]

-- The levels after a replacement: what is left of the old level, unless it is the new one too, and
-- the new total.
unfoldable pub replace_levels : Price → Qty → Price → Qty → OrdMap Qty → OrdMap Qty
replace_levels old_raw old_remaining new_raw new_total levels =
    let cleared =
      (if new_raw == old_raw
        then levels
        else if Qty.is_zero old_remaining
        then erase old_raw levels
        else insert old_raw old_remaining levels) in
    insert new_raw new_total cleared

abbrev found_level : Option Qty → Result Qty
found_level none = err (failed_with "Order book index inconsistency")
found_level (some q) = ok q

-- `replace_order` once the original order is found.
unfoldable pub replace_found : ℕ → BookOrder → ℕ → Qty → Price → OrderBook → Result OrderBook
unfolding replace_levels
replace_found orig_ref order new_ref new_shares new_price b = do
  guard (new_ref == orig_ref || not (present (lookup new_ref b.orders_by_ref)))
      (domain_error duplicate_order_id "Replacement order already in book")
  guard (not (new_price == 0)) (primitive_error zero_value "Price")
  guard (not (Qty.is_zero new_shares)) (primitive_error zero_value "Qty")
  old_level ← found_level (lookup order.price (levels_of order.side b))
  old_remaining ← converted (Qty.checked_sub old_level order.shares)
  new_total ← converted (
      Qty.checked_add
        (if new_price == order.price
          then old_remaining
          else level_at new_price (levels_of order.side b))
        new_shares)
  ok (
      with_levels order.side
        (replace_levels order.price old_remaining new_price new_total (levels_of order.side b))
        (record b {
          orders_by_ref =
              insert new_ref
                (record {
                  order_reference_number = new_ref;
                  side = order.side;
                  price = new_price;
                  shares = new_shares;
                })
                (erase orig_ref b.orders_by_ref);
        }))

unfoldable pub replace_order : ℕ → ℕ → Qty → Price → OrderBook → Result OrderBook
unfolding replace_found
replace_order orig_ref new_ref new_shares new_price b = elim (lookup orig_ref b.orders_by_ref) [
  | none ↦ err (domain_error account_not_found "Original order not in book")
  | some order ↦ replace_found orig_ref order new_ref new_shares new_price b
]

-- `rbegin()->first`.
abbrev pub last_key : Price → OrdMap Qty → Price
last_key k [] = k
last_key k ((j, q) ∷ levels) = last_key j levels

unfoldable pub best_bid : OrderBook → Option Price
best_bid b = elim b.bids_by_price [ [] ↦ none | (k, q) ∷ levels ↦ some (last_key k levels) ]

unfoldable pub best_ask : OrderBook → Option Price
best_ask b = elim b.asks_by_price [ [] ↦ none | (k, q) ∷ levels ↦ some k ]

-- The midpoint of the two prices, the smaller one first.
abbrev mid_of : Option Price → Option Price → Option Price
mid_of none ba = none
mid_of (some bid) none = none
mid_of (some bid) (some ask) =
    let low = (if ltb bid ask then bid else ask) in
    let high = (if ltb bid ask then ask else bid) in
    ok_price (Price.create (add64 low (sub64 high low / 2)))

unfoldable pub mid_price : OrderBook → Option Price
unfolding best_bid best_ask
mid_price b = mid_of (best_bid b) (best_ask b)

abbrev pub timestamp_of : ItchMessage → ℕ
timestamp_of (system_event m) = m.timestamp_nanos
timestamp_of (stock_directory m) = m.timestamp_nanos
timestamp_of (add_order_message m) = m.timestamp_nanos
timestamp_of (order_executed m) = m.timestamp_nanos
timestamp_of (order_executed_with_price m) = m.timestamp_nanos
timestamp_of (order_cancel m) = m.timestamp_nanos
timestamp_of (order_delete m) = m.timestamp_nanos
timestamp_of (order_replace m) = m.timestamp_nanos

-- The change that a message asks for, after the clock.
unfoldable pub change_by : ItchMessage → OrderBook → Result OrderBook
unfolding cancel_order
change_by (system_event m) b = ok b
change_by (stock_directory m) b = ok b
change_by (add_order_message m) b =
    add_order m.order_reference_number m.side m.price_ticks m.shares b
change_by (order_executed m) b = cancel_order m.order_reference_number m.executed_shares b
change_by (order_executed_with_price m) b =
    cancel_order m.order_reference_number m.executed_shares b
change_by (order_cancel m) b = cancel_order m.order_reference_number m.canceled_shares b
change_by (order_delete m) b = delete_order m.order_reference_number b
change_by (order_replace m) b =
    replace_order m.original_order_reference_number m.new_order_reference_number m.shares
      m.price_ticks b

abbrev pub settled_with : OrderBook → Result OrderBook → OrderBook × Result Ok
settled_with b (ok b') = (b', ok ok_value)
settled_with b (err e) = (b, err e)

-- `apply_message`: the book afterwards, and whether the message was applied. The clock advances
-- either way.
unfoldable pub apply_message : ItchMessage → OrderBook → OrderBook × Result Ok
unfolding change_by
apply_message m b =
    let clocked = record b { last_timestamp_nanos = timestamp_of m } in
    settled_with clocked (change_by m clocked)
