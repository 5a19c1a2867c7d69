-- ===== src/Simulator/Rng.antt =====
-- cpp/include/faircross/simulator/rng.hpp: `DeterministicRng`, whose state is one 64-bit number. An operation
-- returns its value with the state after it.
use Prim.Native.Nat.{bit_xor}
use native.Mathlib.Nat.{mod-lt}
use fair_cross.Prelude.{
  ℕ, ◌+◌, ◌-◌, ◌*◌, ◌/◌, ◌%◌, ◌^◌, ◌≤◌, ◌<◌, ◌≡◌, ◌⊎◌, inl, inr, refl, Bool, Bool-cases, false, ltb,
  leb, ◌==◌, if◌then◌else◌, Option, none, some, arith,
}
use fair_cross.Domain.Words.{u64_mod, max_u64, add64, sub64}

-- `z ^ (z >> n)`.
abbrev pub mixed : ℕ → ℕ → ℕ
mixed n z = bit_xor z (z / 2 ^ n)

unfoldable pub next_u64 : ℕ → ℕ × ℕ
unfolding add64
next_u64 state =
    let state = add64 state 11400714819323198485 in
    let z = mixed 30 state * 13787848793156543929 % u64_mod in
    let z = mixed 27 z * 10723151780598845931 % u64_mod in (mixed 31 z, state)

-- Nothing where the remainder is by 0, which is undefined in C++.
unfoldable pub gen_range_u64 : ℕ → ℕ → ℕ → Option (ℕ × ℕ)
unfolding next_u64 add64 sub64
gen_range_u64 min max state =
    let span = add64 (sub64 max min) 1 in
    let (value, next) = next_u64 state in
    if leb max min
    then some (min, state)
    else if span == 0
    then none
    else some (add64 min (value % span), next)

unfoldable pub gen_bool_permille : ℕ → ℕ → Bool × ℕ
unfolding next_u64
gen_bool_permille permille state =
    let (value, next) = next_u64 state in (ltb (value % 1000) permille, next)

-- A remainder by a span that does not wrap around stays between the bounds.
in_span :
    (min max draw : ℕ)
    → min ≤ max
    → max < u64_mod
    → (add64 (sub64 max min) 1 == 0) ≡ false
    → (min ≤ add64 min (draw % add64 (sub64 max min) 1))
      × (add64 min (draw % add64 (sub64 max min) 1) ≤ max)
unfolding add64 sub64
in_span min max draw ordered fits part =
    let span = add64 (sub64 max min) 1 in
    let size : span ≡ max - min + 1 = ground arith in
    let small : draw % span < span = mod-lt draw (omega (arith, size)) in omega (arith, size, small)

-- For 64-bit bounds in order, a number is drawn and lies between them, both included, unless they are 0
-- and the largest number: there the remainder is by 0.
pub gen_range_u64_bounds :
    (min max state : ℕ)
    → min ≤ max
    → max < u64_mod
    → ((min ≡ 0) × (max ≡ max_u64) × (gen_range_u64 min max state ≡ none))
      ⊎ ((value : ℕ) × (next : ℕ) × (gen_range_u64 min max state ≡ some (value, next))
          × (min ≤ value)
          × (value ≤ max))
unfolding gen_range_u64 add64 sub64
gen_range_u64_bounds min max state ordered fits = elim (Bool-cases (leb max min)) [
  | inl one_value ↦ inr (min, state, rw one_value refl, omega arith, ordered)
  | inr more ↦ elim (Bool-cases (add64 (sub64 max min) 1 == 0)) [
    | inl full ↦ inl (ground arith, ground arith, rw (more, full) refl)
    | inr part ↦
        let drawn = next_u64 state in
        let (lo, hi) = in_span min max drawn.0 ordered fits part in
        inr (add64 min (drawn.0 % add64 (sub64 max min) 1), drawn.1, rw (more, part) refl, lo, hi)
  ]
]
