-- ===== src/Proof/R1cs.antt =====
-- cpp/include/faircross/proof/r1cs.hpp: constraint systems over 128-bit scalars. A scalar is its bit
-- pattern, the residue of the signed number modulo 2 ^ 128, so that the wrapping operations are those
-- of the unsigned type.
use Prim.Native.String.{◌++◌ as concat}
use fair_cross.Prelude.{
  ℕ, zero, suc, ◌+◌, ◌-◌, ◌*◌, ◌/◌, ◌%◌, Bool, ltb, ◌==◌, if◌then◌else◌, List, [], ◌∷◌, ◌++◌,
  get_or, String,
}
use fair_cross.Domain.Error.{Result, Ok, ok_value, ok, ◌>>◌, guard, failed_with}
use fair_cross.Domain.Words.{u128_mod, max_u128}

abbrev pub Scalar : Type 0
Scalar = ℕ

unfoldable pub wrapping_add : Scalar → Scalar → Scalar
wrapping_add a b = (a + b) % u128_mod

unfoldable pub wrapping_mul : Scalar → Scalar → Scalar
wrapping_mul a b = a * b % u128_mod

-- `Scalar{-1}`, and the negation of a coefficient.
abbrev pub minus_one : Scalar
minus_one = max_u128

abbrev pub negated : Scalar → Scalar
negated c = (u128_mod - c) % u128_mod

abbrev digit_text : ℕ → String
digit_text d =
    if d == 0
    then "0"
    else if d == 1
    then "1"
    else if d == 2
    then "2"
    else if d == 3
    then "3"
    else if d == 4
    then "4"
    else if d == 5
    then "5"
    else if d == 6
    then "6"
    else if d == 7
    then "7"
    else if d == 8
    then "8"
    else "9"

-- The loop over the digits; 39 rounds are enough for 128 bits.
unfoldable digits_from : ℕ → ℕ → String
digits_from zero magnitude = ""
digits_from (suc fuel) magnitude =
    let front = digits_from fuel (magnitude / 10) in
    if magnitude == 0 then "" else concat front (digit_text (magnitude % 10))

unfoldable pub scalar_to_string : Scalar → String
unfolding digits_from
scalar_to_string value =
    if value == 0
    then "0"
    else if ltb value 170141183460469231731687303715884105728
    then digits_from 39 value
    else concat "-" (digits_from 39 (u128_mod - value))

pub data VariableKind : Type 0 where
  one_kind public_kind witness_kind : VariableKind

pub record Variable : Type 0 where
  pub kind : VariableKind
  pub index : ℕ

abbrev pub one : Variable
one = record { kind = one_kind; index = 0 }

abbrev pub public_var : ℕ → Variable
public_var idx = record { kind = public_kind; index = idx }

abbrev pub witness_var : ℕ → Variable
witness_var idx = record { kind = witness_kind; index = idx }

-- The terms, each a variable and its coefficient.
abbrev pub LinearCombination : Type 0
LinearCombination = List (Variable × Scalar)

abbrev pub from_var : Variable → LinearCombination
from_var v = (v, 1) ∷ []

abbrev pub from_constant : Scalar → LinearCombination
from_constant c = (one, c) ∷ []

abbrev pub add_term : LinearCombination → Variable → Scalar → LinearCombination
add_term lc v coeff = if coeff == 0 then lc else lc ++ (v, coeff) ∷ []

-- The value of a variable; 0 where it is out of range.
abbrev pub value_at : VariableKind → ℕ → List ℕ → List ℕ → Scalar
value_at one_kind index public_inputs witness = 1
value_at public_kind index public_inputs witness = get_or public_inputs index 0
value_at witness_kind index public_inputs witness = get_or witness index 0

-- The loop of `evaluate`, from a running sum.
unfoldable pub evaluate_from : Scalar → LinearCombination → List ℕ → List ℕ → Scalar
unfolding wrapping_add wrapping_mul
evaluate_from sum [] public_inputs witness = sum
evaluate_from sum ((var, coeff) ∷ terms) public_inputs witness =
    evaluate_from
      (wrapping_add sum (wrapping_mul coeff (value_at var.kind var.index public_inputs witness)))
      terms public_inputs witness

unfoldable pub evaluate : LinearCombination → List ℕ → List ℕ → Scalar
unfolding evaluate_from
evaluate lc public_inputs witness = evaluate_from 0 lc public_inputs witness

pub record R1csConstraint : Type 0 where
  pub a : LinearCombination
  pub b : LinearCombination
  pub c : LinearCombination
  pub label : String

pub record ConstraintSystem : Type 0 where
  pub num_public : ℕ
  pub num_witness : ℕ
  pub constraints : List R1csConstraint

abbrev pub new_system : ConstraintSystem
new_system = record { num_public = 0; num_witness = 0; constraints = [] }

unfoldable pub alloc_public : ConstraintSystem → Variable × ConstraintSystem
alloc_public cs = (public_var cs.num_public, record cs { num_public = cs.num_public + 1 })

unfoldable pub alloc_witness : ConstraintSystem → Variable × ConstraintSystem
alloc_witness cs = (witness_var cs.num_witness, record cs { num_witness = cs.num_witness + 1 })

unfoldable pub enforce :
    LinearCombination
    → LinearCombination
    → LinearCombination
    → String
    → ConstraintSystem
    → ConstraintSystem
enforce a b c label cs = record cs {
  constraints = cs.constraints ++ record { a = a; b = b; c = c; label = label } ∷ [];
}

-- The loop of `enforce_equal`, over the terms that are taken away.
unfoldable pub subtracted : LinearCombination → LinearCombination → LinearCombination
subtracted lc [] = lc
subtracted lc ((v, coeff) ∷ terms) = subtracted (add_term lc v (negated coeff)) terms

unfoldable pub enforce_equal :
    LinearCombination → LinearCombination → String → ConstraintSystem → ConstraintSystem
unfolding subtracted enforce
enforce_equal lc1 lc2 label cs = enforce (subtracted lc1 lc2) (from_var one) [] label cs

-- Whether a constraint holds, and what is said if it does not.
unfoldable pub holds : List ℕ → List ℕ → R1csConstraint → Bool
unfolding evaluate
holds public_inputs witness k =
    wrapping_mul (evaluate k.a public_inputs witness) (evaluate k.b public_inputs witness)
    == evaluate k.c public_inputs witness

unfoldable pub unsatisfied : List ℕ → List ℕ → R1csConstraint → String
unfolding scalar_to_string
unsatisfied public_inputs witness k =
    let got =
      wrapping_mul (evaluate k.a public_inputs witness) (evaluate k.b public_inputs witness) in
    concat "ConstraintNotSatisfied: " (
      concat k.label (
        concat " (expected " (
          concat (scalar_to_string (evaluate k.c public_inputs witness))
            (concat ", got " (concat (scalar_to_string got) ")")))))

unfoldable pub all_satisfied : List R1csConstraint → List ℕ → List ℕ → Result Ok
unfolding holds unsatisfied
all_satisfied [] public_inputs witness = ok ok_value
all_satisfied (k ∷ constraints) public_inputs witness =
    guard (holds public_inputs witness k) (failed_with (unsatisfied public_inputs witness k))
    >> all_satisfied constraints public_inputs witness

unfoldable pub is_satisfied : ConstraintSystem → List ℕ → List ℕ → Result Ok
unfolding all_satisfied
is_satisfied cs public_inputs witness = all_satisfied cs.constraints public_inputs witness

-- A system in the making, with the scalars that are pushed for its witness variables.
pub record Synthesis : Type 0 where
  pub system : ConstraintSystem
  pub scalars : List ℕ

-- One `alloc_witness` with the `push_back` of its scalar, which all code pairs in order; and a run of
-- them, whose variables have the next indices in turn.
unfoldable pub push_witness : ℕ → Synthesis → Synthesis
unfolding alloc_witness
push_witness scalar s = record {
  system = (alloc_witness s.system).1;
  scalars = s.scalars ++ scalar ∷ [];
}

unfoldable pub push_witnesses : List ℕ → Synthesis → Synthesis
unfolding push_witness
push_witnesses [] s = s
push_witnesses (scalar ∷ scalars) s = push_witnesses scalars (push_witness scalar s)

-- The variable `k` places after those allocated so far.
abbrev pub next_var : Synthesis → ℕ → Variable
next_var s k = witness_var (s.system.num_witness + k)

abbrev pub next_public : Synthesis → ℕ → Variable
next_public s k = public_var (s.system.num_public + k)

unfoldable pub push_public : Synthesis → Synthesis
unfolding alloc_public
push_public s = record s { system = (alloc_public s.system).1 }

abbrev pub require :
    LinearCombination → LinearCombination → LinearCombination → String → Synthesis → Synthesis
require a b c label s = record s { system = enforce a b c label s.system }

abbrev pub require_equal : LinearCombination → LinearCombination → String → Synthesis → Synthesis
require_equal lc1 lc2 label s = record s { system = enforce_equal lc1 lc2 label s.system }
