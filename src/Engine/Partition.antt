-- ===== src/Engine/Partition.antt =====
-- cpp/include/faircross/engine/partition.hpp: where an order stands against the clearing price.
use fair_cross.Prelude.{ltb, ◌==◌, if◌then◌else◌}
use fair_cross.Domain.Words.{Price}
use fair_cross.Domain.Order.{Order, is_buy}

pub data OrderMoneyness : Type 0 where
  in_the_money at_the_money out_of_the_money : OrderMoneyness

-- Any side but `Buy` is read as a sell.
unfoldable pub classify_order : Order → Price → OrderMoneyness
classify_order order clearing_price =
    if is_buy order.side
    then if ltb clearing_price order.price
      then in_the_money
      else if order.price == clearing_price
      then at_the_money
      else out_of_the_money
    else if ltb order.price clearing_price
    then in_the_money
    else if order.price == clearing_price
    then at_the_money
    else out_of_the_money
