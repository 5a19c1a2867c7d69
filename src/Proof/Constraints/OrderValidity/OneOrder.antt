-- ===== src/Proof/Constraints/OrderValidity/OneOrder.antt =====
-- The constraints of one order.
use Prim.Native.String.{◌++◌ as concat}
use mathlib.Core.List.{append_assoc}
use fair_cross.Prelude.{
  ℕ, zero, suc, ◌+◌, ◌*◌, ◌%◌, ◌≡◌, ◌<◌, ◌↔◌, refl, arith, inl, inr, Bool-cases, true, ◌==◌, List,
  [], ◌∷◌, ◌++◌, length, get_or, String,
}
use fair_cross.Domain.Words.{InstrumentId, u64_mod, u128_mod}
use fair_cross.Domain.Order.{Order, is_buy}
use fair_cross.Proof.R1cs.{
  R1csConstraint, Synthesis, Variable, value_at, from_var, from_constant, add_term, minus_one,
  negated, witness_var, one, holds, wrapping_add, wrapping_mul, evaluate_from, enforce,
  enforce_equal,
}
use fair_cross.Proof.Constraints.OrderValidity.{side_value, nonzero_value, constrain_order}

-- The scalars of an order.
abbrev pub block : Order → List ℕ
block order =
    order.id
    ∷ order.account
    ∷ order.instrument
    ∷ side_value order
    ∷ order.price
    ∷ order.qty
    ∷ order.seq
    ∷ nonzero_value order.price
    ∷ nonzero_value order.qty
    ∷ []

abbrev pub equal_to : Variable → ℕ → String → R1csConstraint
equal_to v c label = record {
  a = add_term (from_var v) one (negated c);
  b = from_var one;
  c = [];
  label = label;
}

abbrev pub kept_by : Variable → Variable → String → R1csConstraint
kept_by v inv label = record { a = from_var v; b = from_var inv; c = from_var v; label = label }

module _ (to_string : ℕ → String) (inst : InstrumentId) where
  -- The constraints of the order at `idx`, whose variables have the indices from `n` on.
  abbrev pub order_constraints : ℕ → ℕ → List R1csConstraint
  order_constraints n idx =
      let tag = concat "order_" (to_string idx) in
      record {
        a = from_var (witness_var (n + 3));
        b = add_term (from_constant 1) (witness_var (n + 3)) minus_one;
        c = [];
        label = concat tag "_boolean_side";
      }
      ∷ equal_to (witness_var (n + 2)) inst (concat tag "_instrument_match")
      ∷ equal_to (witness_var (n + 6)) idx (concat tag "_sequence_match")
      ∷ kept_by (witness_var (n + 4)) (witness_var (n + 7)) (concat tag "_price_nonzero")
      ∷ kept_by (witness_var (n + 5)) (witness_var (n + 8)) (concat tag "_qty_nonzero")
      ∷ []

  pub constrain_order_lem :
      (idx : ℕ) (order : Order) (s : Synthesis)
      → ((constrain_order to_string inst idx order s).scalars ≡ s.scalars ++ block order)
        × ((constrain_order to_string inst idx order s).system.num_witness
            ≡ s.system.num_witness + 9)
        × ((constrain_order to_string inst idx order s).system.constraints
            ≡ s.system.constraints ++ order_constraints s.system.num_witness idx)
  unfolding constrain_order enforce enforce_equal
  constrain_order_lem idx order s =
      let n = s.system.num_witness in
      let seven : n + 1 + 1 + 1 + 1 + 1 + 1 + 1 + 0 ≡ n + 7 = omega arith in
      let eight : n + 1 + 1 + 1 + 1 + 1 + 1 + 1 + 1 ≡ n + 8 = omega arith in
      (simp append_assoc, omega arith, simp append_assoc (rw (seven, eight) refl))

pub get_or-append :
    (xs ys : List ℕ) (n k : ℕ) → length xs ≡ n → get_or (xs ++ ys) (n + k) 0 ≡ get_or ys k 0
get_or-append [] ys n k size = let same : n + k ≡ k = omega arith in rw same refl
get_or-append (x ∷ xs) ys zero k size = absurd (omega arith)
get_or-append (x ∷ xs) ys (suc n) k size =
    let same : suc n + k ≡ suc (n + k) = omega arith in
    rw same (get_or-append xs ys n k (omega arith))

-- Two 64-bit numbers whose difference is 0 as a scalar are the same.
pub equal_to-holds :
    (v : Variable) (c : ℕ) (label : String) (pub_in w : List ℕ) (x : ℕ)
    → x < u64_mod
    → c < u64_mod
    → value_at v.kind v.index pub_in w ≡ x
    → (holds pub_in w (equal_to v c label) ≡ true) ↔ (x ≡ c)
unfolding holds wrapping_add wrapping_mul evaluate_from
equal_to-holds v c label pub_in w x fits_x fits_c at = elim (Bool-cases (negated c == 0)) [
  | inl e ↦ rw (e, at) (λ h. ground arith, λ h. ground arith)
  | inr e ↦ rw (e, at) (λ h. ground arith, λ h. ground arith)
]

pub kept_by-holds :
    (v inv : Variable) (label : String) (pub_in w : List ℕ) (x : ℕ)
    → x < u64_mod
    → value_at v.kind v.index pub_in w ≡ x
    → value_at inv.kind inv.index pub_in w ≡ nonzero_value x
    → holds pub_in w (kept_by v inv label) ≡ true
unfolding holds wrapping_add wrapping_mul evaluate_from
kept_by-holds v inv label pub_in w x fits at inv_at = rw (at, inv_at) (kept x fits)
  where
    kept :
        (x : ℕ)
        → x < u64_mod
        → ((0 + 1 * x % u128_mod)
              % u128_mod
              * ((0 + 1 * nonzero_value x % u128_mod) % u128_mod)
              % u128_mod
            == (0 + 1 * x % u128_mod) % u128_mod)
          ≡ true
    kept zero fits = refl
    kept (suc x) fits = ground arith

-- A side is 0 or 1.
pub side-holds :
    (v : Variable) (label : String) (pub_in w : List ℕ) (order : Order)
    → value_at v.kind v.index pub_in w ≡ side_value order
    → holds pub_in w (record {
      a = from_var v;
      b = add_term (from_constant 1) v minus_one;
      c = [];
      label = label;
    })
      ≡ true
unfolding holds wrapping_add wrapping_mul evaluate_from
side-holds v label pub_in w order at = elim (Bool-cases (is_buy order.side)) [
  | inl e ↦ rw (at, e) refl
  | inr e ↦ rw (at, e) refl
]
