-- ===== src/Proof/Constraints/OrderValidity.antt =====
-- cpp/src/proof/constraints/order_validity.cpp: proper sides, the instrument, the sequence, positivity.
pub mod OneOrder
pub mod Exact
use Prim.Native.String.{◌++◌ as concat}
use fair_cross.Prelude.{ℕ, suc, not, ◌==◌, if◌then◌else◌, List, [], ◌∷◌, String}
use fair_cross.Domain.Words.{InstrumentId}
use fair_cross.Domain.Order.{Order, is_buy}
use fair_cross.Proof.R1cs.{
  Variable, Synthesis, from_var, from_constant, add_term, minus_one, next_var, push_witnesses,
  require, require_equal,
}

pub record AllocatedOrderVar : Type 0 where
  pub id : Variable
  pub account : Variable
  pub instrument : Variable
  pub side : Variable
  pub price : Variable
  pub qty : Variable
  pub sequence : Variable

-- `Side::Buy` is 0, anything else 1.
abbrev pub side_value : Order → ℕ
side_value order = if is_buy order.side then 0 else 1

abbrev pub nonzero_value : ℕ → ℕ
nonzero_value n = if not (n == 0) then 1 else 0

-- The variables of an order, the first of them at `s`.
abbrev pub variables_at : Synthesis → AllocatedOrderVar
variables_at s = record {
  id = next_var s 0;
  account = next_var s 1;
  instrument = next_var s 2;
  side = next_var s 3;
  price = next_var s 4;
  qty = next_var s 5;
  sequence = next_var s 6;
}

module _ (to_string : ℕ → String) where
  -- One round of the loop.
  unfoldable pub constrain_order : InstrumentId → ℕ → Order → Synthesis → Synthesis
  unfolding push_witnesses
  constrain_order batch_instrument idx order s =
      let v = variables_at s in
      let tag = concat "order_" (to_string idx) in
      let s1 =
        push_witnesses
          (order.id
            ∷ order.account
            ∷ order.instrument
            ∷ side_value order
            ∷ order.price
            ∷ order.qty
            ∷ order.seq
            ∷ [])
          s in
      let s2 =
        require (from_var v.side) (add_term (from_constant 1) v.side minus_one) []
          (concat tag "_boolean_side") s1 in
      let s3 =
        require_equal (from_var v.instrument) (from_constant batch_instrument)
          (concat tag "_instrument_match") s2 in
      let s4 =
        require_equal (from_var v.sequence) (from_constant idx) (concat tag "_sequence_match") s3 in
      let inv_price = next_var s4 0 in
      let inv_qty = next_var s4 1 in
      let s5 = push_witnesses (nonzero_value order.price ∷ nonzero_value order.qty ∷ []) s4 in
      let s6 =
        require (from_var v.price) (from_var inv_price) (from_var v.price)
          (concat tag "_price_nonzero") s5 in
      require (from_var v.qty) (from_var inv_qty) (from_var v.qty) (concat tag "_qty_nonzero") s6

  -- The loop, from index `idx` on.
  unfoldable pub constrain_orders : InstrumentId → ℕ → List Order → Synthesis → Synthesis
  unfolding constrain_order
  constrain_orders batch_instrument idx [] s = s
  constrain_orders batch_instrument idx (order ∷ orders) s =
      constrain_orders batch_instrument (suc idx) orders
        (constrain_order batch_instrument idx order s)

  -- The variables that the loop collects.
  unfoldable pub allocated_orders :
      InstrumentId → ℕ → List Order → Synthesis → List AllocatedOrderVar
  unfolding constrain_order
  allocated_orders batch_instrument idx [] s = []
  allocated_orders batch_instrument idx (order ∷ orders) s =
      variables_at s
      ∷ allocated_orders batch_instrument (suc idx) orders
          (constrain_order batch_instrument idx order s)

  unfoldable pub synthesize_order_validity_constraints :
      InstrumentId → List Order → Synthesis → List AllocatedOrderVar × Synthesis
  unfolding constrain_orders allocated_orders
  synthesize_order_validity_constraints batch_instrument orders s =
      (allocated_orders batch_instrument 0 orders s, constrain_orders batch_instrument 0 orders s)
