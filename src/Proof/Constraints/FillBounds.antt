-- ===== src/Proof/Constraints/FillBounds.antt =====
-- cpp/src/proof/constraints/fill_bounds.cpp: no overfill, the consideration, the limit price.
use Prim.Native.String.{◌++◌ as concat}
use fair_cross.Prelude.{
  ℕ, ◌-◌, not, ◌&&◌, ltb, if◌then◌else◌, List, [], ◌∷◌, Option, none, some, String,
}
use fair_cross.Domain.Error.{Result, ok, err, ◌>>=◌, ◌>>◌, guard, failed_with}
use fair_cross.Domain.Words.{Price, to_u64}
use fair_cross.Domain.Order.{Order, is_buy}
use fair_cross.Domain.Fill.{Fill}
use fair_cross.Engine.Fills.Origins.{find_order}
use fair_cross.Proof.R1cs.{
  Variable, Synthesis, from_var, add_term, minus_one, next_var, push_witnesses, require,
  require_equal,
}

abbrev filled_order : Option Order → Result Order
filled_order none = err (failed_with "InvalidWitness: fill refers to unknown order id")
filled_order (some order) = ok order

module _ (to_string : ℕ → String) where
  -- The limit of the order against the clearing price, by side.
  unfoldable pub constrain_limit : Price → Variable → Fill → Order → Synthesis → Result Synthesis
  unfolding push_witnesses
  constrain_limit cp_val cp_var fill order s =
      let limit_val = order.price in
      let limit_var = next_var s 0 in
      let slack_var = next_var s 1 in
      let below = (if ltb cp_val limit_val then limit_val - cp_val else 0) in
      let above = (if ltb limit_val cp_val then cp_val - limit_val else 0) in
      let bought = (do
        guard (not (ltb limit_val cp_val && ltb 0 fill.fill_qty))
            (failed_with (concat "buy_order_" (concat (to_string order.id) "_limit_price")))
        ok (
            require_equal (add_term (from_var limit_var) cp_var minus_one) (from_var slack_var)
              (concat "buy_order_" (concat (to_string order.id) "_limit_slack"))
              (push_witnesses (limit_val ∷ below ∷ []) s))) in
      let sold = (do
        guard (not (ltb cp_val limit_val && ltb 0 fill.fill_qty))
            (failed_with (concat "sell_order_" (concat (to_string order.id) "_limit_price")))
        ok (
            require_equal (add_term (from_var cp_var) limit_var minus_one) (from_var slack_var)
              (concat "sell_order_" (concat (to_string order.id) "_limit_slack"))
              (push_witnesses (limit_val ∷ above ∷ []) s))) in
      if is_buy order.side then bought else sold

  -- One round of the loop over the fills.
  unfoldable pub constrain_fill :
      Price → Variable → List Order → Fill → Synthesis → Result Synthesis
  unfolding push_witnesses to_u64 constrain_limit
  constrain_fill cp_val cp_var orders fill s = do
    order ← filled_order (find_order fill.order_id orders)
    guard (not (ltb order.qty fill.fill_qty))
        (failed_with (concat "order_" (concat (to_string order.id) "_no_overfill")))
    let s1 =
        push_witnesses
          (fill.fill_qty ∷ order.qty ∷ (order.qty - fill.fill_qty) ∷ to_u64 fill.consideration ∷ [])
          s
    let s2 =
        require_equal (add_term (from_var (next_var s 1)) (next_var s 0) minus_one)
          (from_var (next_var s 2))
          (concat "order_" (concat (to_string order.id) "_remaining_qty_bound")) s1
    let s3 =
        require (from_var cp_var) (from_var (next_var s 0)) (from_var (next_var s 3))
          (concat "fill_" (concat (to_string fill.fill_id) "_consideration_product")) s2
    constrain_limit cp_val cp_var fill order s3

  unfoldable pub constrain_fills :
      Price → Variable → List Order → List Fill → Synthesis → Result Synthesis
  unfolding constrain_fill
  constrain_fills cp_val cp_var orders [] s = ok s
  constrain_fills cp_val cp_var orders (fill ∷ fills) s = do
    s ← constrain_fill cp_val cp_var orders fill s
    constrain_fills cp_val cp_var orders fills s

  unfoldable pub synthesize_fill_bounds_constraints :
      Price → List Order → List Fill → Synthesis → Result Synthesis
  unfolding push_witnesses constrain_fills
  synthesize_fill_bounds_constraints clearing_price orders fills s =
      constrain_fills clearing_price (next_var s 0) orders fills
        (push_witnesses (clearing_price ∷ []) s)
