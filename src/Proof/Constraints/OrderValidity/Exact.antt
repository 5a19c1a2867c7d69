-- ===== src/Proof/Constraints/OrderValidity/Exact.antt =====
-- What the constraints of order validity say of the orders.
use mathlib.Core.List.{append_assoc, append-nil}
use fair_cross.Prelude.{
  ℕ, suc, ◌+◌, ◌≡◌, ◌<◌, ◌↔◌, ◌∙◌, ap, refl, sym, subst, arith, true, List, [], ◌∷◌, ◌++◌, length,
  length-append, get_or, String, All,
}
use fair_cross.Domain.Error.{ok_value, ok, guard, >>=-eq-ok, guard-eq-ok}
use fair_cross.Domain.Words.{InstrumentId, u64_mod}
use fair_cross.Domain.Order.{Order}
use fair_cross.Proof.R1cs.{
  R1csConstraint, Synthesis, witness_var, new_system, holds, all_satisfied, is_satisfied,
}
use fair_cross.Proof.Constraints.OrderValidity.{
  constrain_order, constrain_orders, synthesize_order_validity_constraints,
}
use fair_cross.Proof.Constraints.OrderValidity.OneOrder.{
  block, order_constraints, constrain_order_lem, get_or-append, equal_to-holds, kept_by-holds,
  side-holds,
}

abbrev AllHold : List ℕ → List ℕ → List R1csConstraint → Type 0
AllHold pub_in w ks = All (λ k. holds pub_in w k ≡ true) ks

all_satisfied_iff :
    (ks : List R1csConstraint) (pub_in w : List ℕ)
    → (all_satisfied ks pub_in w ≡ ok ok_value) ↔ AllHold pub_in w ks
unfolding all_satisfied
all_satisfied_iff [] pub_in w = (λ h. tt, λ h. refl)
all_satisfied_iff (k ∷ ks) pub_in w = (
  λ h.
      let (_, g, e) = >>=-eq-ok (guard (holds pub_in w k) _) _ h in
      (guard-eq-ok _ _ g, (all_satisfied_iff ks pub_in w).0 e),
  λ h. rw h.0 ((all_satisfied_iff ks pub_in w).1 h.1),
)

AllHold-append :
    (ks ls : List R1csConstraint) (pub_in w : List ℕ)
    → AllHold pub_in w (ks ++ ls) ↔ (AllHold pub_in w ks × AllHold pub_in w ls)
AllHold-append [] ls pub_in w = (λ h. (tt, h), λ h. h.1)
AllHold-append (k ∷ ks) ls pub_in w = (
  λ h. let (first, second) = (AllHold-append ks ls pub_in w).0 h.1 in ((h.0, first), second),
  λ h. (h.0.0, (AllHold-append ks ls pub_in w).1 (h.0.1, h.1)),
)

-- The fields of an order that the constraints are on are 64-bit numbers.
pub record IsWordOrder (o : Order) : Type 0 where
  pub instrument_fits : o.instrument < u64_mod
  pub price_fits : o.price < u64_mod
  pub qty_fits : o.qty < u64_mod
  pub seq_fits : o.seq < u64_mod

-- Each order is of the instrument, and its sequence number is its place, from `idx` on.
abbrev pub InPlace : InstrumentId → ℕ → List Order → Type 0
InPlace inst idx [] = Unit
InPlace inst idx (order ∷ orders) =
    ((order.instrument ≡ inst) × (order.seq ≡ idx)) × InPlace inst (suc idx) orders

module _ (to_string : ℕ → String) (inst : InstrumentId) (inst_fits : inst < u64_mod)
    (pub_in : List ℕ) where
  -- The constraints of one order, on scalars with its block after `n` others.
  order_constraints-hold :
      (n idx : ℕ) (order : Order) (pre post : List ℕ)
      → IsWordOrder order
      → idx < u64_mod
      → length pre ≡ n
      → AllHold pub_in (pre ++ (block order ++ post)) (order_constraints to_string inst n idx)
        ↔ ((order.instrument ≡ inst) × (order.seq ≡ idx))
  order_constraints-hold n idx order pre post fits idx_fits size =
      let w = pre ++ (block order ++ post) in
      let at : (k : ℕ) → get_or w (n + k) 0 ≡ get_or (block order ++ post) k 0 =
        λ k. get_or-append pre (block order ++ post) n k size in
      let instrument =
        equal_to-holds (witness_var (n + 2)) inst _ pub_in w order.instrument fits.instrument_fits
          inst_fits (at 2) in
      let sequence =
        equal_to-holds (witness_var (n + 6)) idx _ pub_in w order.seq fits.seq_fits idx_fits
          (at 6) in
      let price =
        kept_by-holds (witness_var (n + 4)) (witness_var (n + 7)) _ pub_in w order.price
          fits.price_fits (at 4) (at 7) in
      let qty =
        kept_by-holds (witness_var (n + 5)) (witness_var (n + 8)) _ pub_in w order.qty fits.qty_fits
          (at 5) (at 8) in
      let side = side-holds (witness_var (n + 3)) _ pub_in w order (at 3) in
      (
        λ h. (instrument.0 h.1.0, sequence.0 h.1.1.0),
        λ h. (side, (instrument.1 h.0, (sequence.1 h.1, (price, (qty, tt))))),
      )

  abbrev blocks : List Order → List ℕ
  blocks [] = []
  blocks (order ∷ orders) = block order ++ blocks orders

  abbrev all_constraints : ℕ → ℕ → List Order → List R1csConstraint
  all_constraints n idx [] = []
  all_constraints n idx (order ∷ orders) =
      order_constraints to_string inst n idx ++ all_constraints (n + 9) (suc idx) orders

  constrain_orders_lem :
      (idx : ℕ) (orders : List Order) (s : Synthesis)
      → ((constrain_orders to_string inst idx orders s).scalars ≡ s.scalars ++ blocks orders)
        × ((constrain_orders to_string inst idx orders s).system.constraints
            ≡ s.system.constraints ++ all_constraints s.system.num_witness idx orders)
  unfolding constrain_orders
  constrain_orders_lem idx [] s =
      (sym (append-nil s.scalars), sym (append-nil s.system.constraints))
  constrain_orders_lem idx (order ∷ orders) s =
      let t = constrain_order to_string inst idx order s in
      let (scalars, count, constraints) = constrain_order_lem to_string inst idx order s in
      let (rest_scalars, rest_constraints) = constrain_orders_lem (suc idx) orders t in
      let counted =
        subst
          (λ n.
            (constrain_orders to_string inst (suc idx) orders t).system.constraints
            ≡ t.system.constraints ++ all_constraints n (suc idx) orders)
          count rest_constraints in
      (
        rest_scalars
            ∙ ap (λ l. l ++ blocks orders) scalars
            ∙ append_assoc s.scalars (block order) (blocks orders),
        counted
            ∙ ap (λ l. l ++ all_constraints (s.system.num_witness + 9) (suc idx) orders) constraints
            ∙ append_assoc s.system.constraints
                (order_constraints to_string inst s.system.num_witness idx)
                (all_constraints (s.system.num_witness + 9) (suc idx) orders),
      )

  all_constraints-hold :
      (n idx : ℕ) (orders : List Order) (pre : List ℕ)
      → All IsWordOrder orders
      → idx + length orders < u64_mod
      → length pre ≡ n
      → AllHold pub_in (pre ++ blocks orders) (all_constraints n idx orders)
        ↔ InPlace inst idx orders
  all_constraints-hold n idx [] pre fits short size = (λ h. tt, λ h. tt)
  all_constraints-hold n idx (order ∷ orders) pre fits short size =
      let w = pre ++ (block order ++ blocks orders) in
      let one_order =
        order_constraints-hold n idx order pre (blocks orders) fits.0 (omega arith) size in
      let longer : length (pre ++ block order) ≡ n + 9 =
        omega (arith, length-append pre (block order)) in
      let rest =
        subst
          (λ w.
            AllHold pub_in w (all_constraints (n + 9) (suc idx) orders)
            ↔ InPlace inst (suc idx) orders)
          (append_assoc pre (block order) (blocks orders))
          (all_constraints-hold (n + 9) (suc idx) orders (pre ++ block order) fits.1 (omega arith)
            longer) in
      let both =
        AllHold-append (order_constraints to_string inst n idx)
          (all_constraints (n + 9) (suc idx) orders) pub_in w in
      (
        λ h. let (first, second) = both.0 h in (one_order.0 first, rest.0 second),
        λ h. both.1 (one_order.1 h.0, rest.1 h.1),
      )

  -- The constraints of order validity on a new system are satisfied by the scalars pushed with them
  -- exactly if every order is of the instrument and has its place in the batch as its sequence number;
  -- the fields of the orders, the instrument and the number of the orders fit 64 bits. Prices and
  -- quantities of 0 satisfy them.
  pub synthesize_order_validity_iff :
      (orders : List Order)
      → All IsWordOrder orders
      → length orders < u64_mod
      → let s =
          (synthesize_order_validity_constraints to_string inst orders
            (record { system = new_system; scalars = [] })).1 in
        (is_satisfied s.system pub_in s.scalars ≡ ok ok_value) ↔ InPlace inst 0 orders
  unfolding synthesize_order_validity_constraints is_satisfied
  synthesize_order_validity_iff orders fits short =
      let start : Synthesis = record { system = new_system; scalars = [] } in
      let (scalars, constraints) = constrain_orders_lem 0 orders start in
      let held = all_constraints-hold 0 0 orders [] fits (omega arith) refl in
      let satisfied = all_satisfied_iff (all_constraints 0 0 orders) pub_in (blocks orders) in
      rw (scalars, constraints) (λ h. held.0 (satisfied.0 h), λ h. satisfied.1 (held.1 h))
