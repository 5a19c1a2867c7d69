-- ===== src/Engine/Allocation/Shares.antt =====
-- Largest remainders at the money: the shares rounded down leave a surplus that is smaller than the
-- number of orders with a remainder, so handing it out lot by lot uses up the volume exactly.
use Prim.Native.Nat.{min}
use native.Mathlib.Nat.{
  mul-le-mul_left, div-add-mod, mod-lt, div-le_of_le-mul, le_of_mul-le-mul_right,
  lt_of_mul-lt-mul_right,
}
use fair_cross.Prelude.{
  ℕ, zero, suc, ◌+◌, ◌-◌, ◌*◌, ◌/◌, ◌%◌, ◌≤◌, ◌<◌, ◌≡◌, refl, sym, subst, false, List, [], ◌∷◌, map,
  if◌then◌else◌, ltb, ◌==◌, sum_by, All, lt→ltb, IsSortedBy, arith, inl, inr, Bool-cases,
}
use fair_cross.Domain.Words.{u64_mod, add64, add64-eq, to_u64-eq, mul128-eq}
use fair_cross.Domain.Order.{Order}
use fair_cross.Prelude.OrdMap.{insert}
use fair_cross.Engine.Allocation.{
  AtTheMoneyCandidate, FillMap, candidate, base_sum_from, larger_remainder, hand_out,
}
use fair_cross.Engine.Allocation.Fills.{Entry, order_of, fill_in, put_all}

-- The base and the remainder are quotient and remainder of the exact share `qty * v / t`.
abbrev pub IsShare : ℕ → ℕ → AtTheMoneyCandidate → Type 0
IsShare v t c = (c.base_fill * t + c.remainder ≡ c.order.qty * v) × (c.remainder < t)

pub candidate-IsShare :
    (v t : ℕ) (o : Order) → v < t → t < u64_mod → o.qty < u64_mod → IsShare v t (candidate v t o)
unfolding candidate
candidate-IsShare v t o vt tw qw =
    rw
      (
        mul128-eq o.qty v qw (omega arith),
        to_u64-eq (o.qty * v / t) fits,
        to_u64-eq (o.qty * v % t) (omega (arith, small)),
      )
      (omega (arith, div-add-mod (o.qty * v) t), small)
  where
    small : o.qty * v % t < t
    small = mod-lt (o.qty * v) (omega arith)

    weak : v ≤ t
    weak = omega arith

    bound : o.qty * v ≤ t * o.qty
    bound = omega (arith, mul-le-mul_left o.qty weak)

    fits : o.qty * v / t < u64_mod
    fits = omega (arith, div-le_of_le-mul t bound)

-- A base does not exceed its order, and stays below it where there is a remainder.
share_bounds :
    (v t : ℕ) (c : AtTheMoneyCandidate)
    → v < t
    → IsShare v t c
    → (c.base_fill ≤ c.order.qty) × (0 < c.remainder → c.base_fill < c.order.qty)
share_bounds v t c vt s = (
  le_of_mul-le-mul_right {k = t} (omega (arith, s.0, mul-le-mul_left c.order.qty weak))
      (omega arith),
  λ r. lt_of_mul-lt-mul_right t (omega (arith, s.0, mul-le-mul_left c.order.qty weak)),
)
  where
    weak : v ≤ t
    weak = omega arith

abbrev pub bases : List AtTheMoneyCandidate → ℕ
bases cs = sum_by (λ c. c.base_fill) cs

abbrev pub remainders : List AtTheMoneyCandidate → ℕ
remainders cs = sum_by (λ c. c.remainder) cs

abbrev quantities : List AtTheMoneyCandidate → ℕ
quantities cs = sum_by (λ c. c.order.qty) cs

-- The exact shares add up to the whole.
pub shares_sum :
    (v t : ℕ) (cs : List AtTheMoneyCandidate)
    → All (IsShare v t) cs
    → bases cs * t + remainders cs ≡ quantities cs * v
shares_sum v t [] h = omega arith
shares_sum v t (c ∷ cs) h = omega (arith, h.0, shares_sum v t cs h.1)

pub base_sum_from-bases :
    (acc : ℕ) (cs : List AtTheMoneyCandidate)
    → acc + bases cs < u64_mod
    → base_sum_from acc cs ≡ acc + bases cs
unfolding base_sum_from
base_sum_from-bases acc [] h = omega arith
base_sum_from-bases acc (c ∷ cs) h =
    let step = add64-eq acc c.base_fill (omega arith) in
    rw step (omega (arith, base_sum_from-bases (acc + c.base_fill) cs (omega arith)))

-- The entries that `hand_out` writes.
abbrev pub handed : ℕ → List AtTheMoneyCandidate → List Entry
handed surplus [] = []
handed surplus (c ∷ cs) =
    (c.order, min (add64 c.base_fill (if ltb 0 surplus then 1 else 0)) c.order.qty)
    ∷ handed (if ltb 0 surplus then surplus - 1 else surplus) cs

pub hand_out-put_all :
    (s : ℕ) (cs : List AtTheMoneyCandidate) (m : FillMap)
    → hand_out s cs m ≡ put_all (handed s cs) m
unfolding hand_out
hand_out-put_all s [] m = refl
hand_out-put_all s (c ∷ cs) m =
    hand_out-put_all (if ltb 0 s then s - 1 else s) cs
      (insert c.order.id (min (add64 c.base_fill (if ltb 0 s then 1 else 0)) c.order.qty) m)

pub handed_orders :
    (s : ℕ) (cs : List AtTheMoneyCandidate) → map order_of (handed s cs) ≡ map (λ c. c.order) cs
handed_orders s [] = refl
handed_orders s (c ∷ cs) = cc (handed_orders (if ltb 0 s then s - 1 else s) cs)

no_remainders :
    (c : AtTheMoneyCandidate) (cs : List AtTheMoneyCandidate)
    → All (λ d. larger_remainder d c ≡ false) cs
    → c.remainder ≡ 0
    → remainders cs ≡ 0
unfolding larger_remainder
no_remainders c [] h z = refl
no_remainders c (d ∷ cs) h z = ground (arith, no_remainders c cs h.1)

-- While a surplus is left, the next candidate has a remainder.
pub surplus_meets_remainder :
    (t s : ℕ) (c : AtTheMoneyCandidate) (cs : List AtTheMoneyCandidate)
    → 0 < t
    → IsSortedBy larger_remainder (c ∷ cs)
    → suc s * t ≤ remainders (c ∷ cs)
    → 0 < c.remainder
surplus_meets_remainder t s c cs pos sorted h = elim (Bool-cases (c.remainder == 0)) [
  | inl e ↦
      let z : c.remainder ≡ 0 = ground arith in
      absurd (omega (arith, no_remainders c cs sorted.0 z, z))
  | inr e ↦ ground arith
]

-- A fill is the exact share rounded down or up, and does not exceed the order.
abbrev pub IsRounded : ℕ → ℕ → Order → ℕ → Type 0
IsRounded v t o fill = (fill ≤ o.qty) × (fill * t < o.qty * v + t) × (o.qty * v < fill * t + t)

-- The extra lot of one candidate fits below its order, so the machine sum and the minimum are exact.
pub extra_exact :
    (v t extra : ℕ) (c : AtTheMoneyCandidate)
    → v < t
    → c.order.qty < u64_mod
    → IsShare v t c
    → extra ≤ 1
    → (0 < extra → 0 < c.remainder)
    → min (add64 c.base_fill extra) c.order.qty ≡ c.base_fill + extra
extra_exact v t extra c vt qw share small some_left =
    rw (add64-eq c.base_fill extra (grind (arith, share_bounds v t c vt share)))
      (grind (arith, share_bounds v t c vt share))

pub handed-suc :
    (s : ℕ) (c : AtTheMoneyCandidate) (cs : List AtTheMoneyCandidate)
    → handed (suc s) (c ∷ cs) ≡ (c.order, min (add64 c.base_fill 1) c.order.qty) ∷ handed s cs
handed-suc s c cs = rw (lt→ltb 0 (suc s) (omega arith), pred_suc)
  where
    pred_suc : suc s - 1 ≡ s
    pred_suc = omega arith

-- On candidates by descending remainder, with a surplus that the remainders cover, the whole surplus
-- is handed out, and every fill is its exact share rounded down or up.
pub handed_exact :
    (v t s : ℕ) (cs : List AtTheMoneyCandidate)
    → v < t
    → All (λ c. c.order.qty < u64_mod) cs
    → All (IsShare v t) cs
    → IsSortedBy larger_remainder cs
    → s * t ≤ remainders cs
    → (sum_by fill_in (handed s cs) ≡ bases cs + s)
      × All (λ (e : Entry). IsRounded v t e.0 e.1) (handed s cs)
handed_exact v t zero [] vt qw sh sorted h = (omega arith, tt)
handed_exact v t (suc s) [] vt qw sh sorted h = absurd (omega arith)
handed_exact v t zero (c ∷ cs) vt qw sh sorted h =
    let rest = handed_exact v t zero cs vt qw.1 sh.1 sorted.1 (omega arith) in
    let exact = extra_exact v t 0 c vt qw.0 sh.0 (omega arith) (λ h. absurd (omega arith)) in
    rw exact (
      omega (arith, rest.0),
      (
        (omega (arith, share_bounds v t c vt sh.0), omega (arith, sh.0), omega (arith, sh.0)),
        rest.1,
      ),
    )
handed_exact v t (suc s) (c ∷ cs) vt qw sh sorted h =
    let left = surplus_meets_remainder t s c cs (omega arith) sorted h in
    let rest = handed_exact v t s cs vt qw.1 sh.1 sorted.1 (omega (arith, sh.0)) in
    let exact = extra_exact v t 1 c vt qw.0 sh.0 (omega arith) (λ h. left) in
    subst
      (λ es.
        (sum_by fill_in es ≡ bases (c ∷ cs) + suc s)
        × All (λ (e : Entry). IsRounded v t e.0 e.1) es)
      (sym (handed-suc s c cs))
      (rw exact (
        omega (arith, rest.0),
        (
          (
            omega (arith, (share_bounds v t c vt sh.0).1 left),
            omega (arith, sh.0),
            omega (arith, sh.0),
          ),
          rest.1,
        ),
      ))
