-- ===== src/Engine/Allocation/Precedence.antt =====
-- Which orders of a side are served first: in the money by price and then by time, at the money, for
-- the lots that rounding leaves, by remainder. Written down from the policy, not from the comparators
-- of `allocate_side`.
use Prim.Native.Nat.{min}
use native.Mathlib.Nat.{mod-lt}
use fair_cross.Prelude.{
  ℕ, zero, suc, ◌+◌, ◌*◌, ◌%◌, ◌≤◌, ◌<◌, ◌≡◌, ◌⊎◌, ◌-◌, refl, sym, subst, Bool-cases, true, false,
  List, [], ◌∷◌, map, leb, All, All-map, All-of, All-zip, All-of_map, All-to_map, IsSortedBy, sort,
  sort-IsSortedBy, inl, inr, arith,
}
use fair_cross.Domain.Words.{u64_mod, sub64, sub64-eq, mul128-eq, to_u64-eq}
use fair_cross.Domain.Order.{Order, Side, buy, sell, invalid}
use fair_cross.Engine.Allocation.{AtTheMoneyCandidate, candidate, has_priority, larger_remainder}
use fair_cross.Engine.Allocation.Fills.{Entry, order_of, turns, turns_orders}
use fair_cross.Engine.Allocation.Shares.{
  IsShare, remainders, handed, handed_orders, handed-suc, surplus_meets_remainder, extra_exact,
}

-- A better price, or the same price and an earlier sequence number. A side that is no buy is a sell.
abbrev pub Before : Side → Order → Order → Type 0
Before buy o o' = (o'.price < o.price) ⊎ ((o.price ≡ o'.price) × (o.seq < o'.seq))
Before sell o o' = (o.price < o'.price) ⊎ ((o.price ≡ o'.price) × (o.seq < o'.seq))
Before (invalid n) o o' = (o.price < o'.price) ⊎ ((o.price ≡ o'.price) × (o.seq < o'.seq))

-- An order that is before another one with a fill is filled whole.
abbrev pub ServedFirst : Side → Order → ℕ → Order → ℕ → Type 0
ServedFirst side o fill o' fill' = Before side o o' → 0 < fill' → fill ≡ o.qty

-- What is left of the exact share of an order in a volume `v` of `t`.
abbrev pub remainder_of : ℕ → ℕ → Order → ℕ
remainder_of v t o = o.qty * v % t

-- A larger remainder; or as large a one and an earlier sequence number; or that too, and a smaller id.
abbrev pub Ahead : ℕ → ℕ → Order → Order → Type 0
Ahead v t o o' =
    (remainder_of v t o' < remainder_of v t o)
    ⊎ ((remainder_of v t o ≡ remainder_of v t o')
        × ((o.seq < o'.seq) ⊎ ((o.seq ≡ o'.seq) × (o.id < o'.id))))

-- An order that is ahead of one with more than its exact share gets more than its exact share.
abbrev pub RoundedFirst : ℕ → ℕ → Order → ℕ → Order → ℕ → Type 0
RoundedFirst v t o fill o' fill' = Ahead v t o o' → o'.qty * v < fill' * t → o.qty * v < fill * t

-- A relation between any two entries.
abbrev pub Pairs : (Order → ℕ → Order → ℕ → Type 0) → List Entry → Type 0
Pairs R es = All (λ (e : Entry). All (λ (e' : Entry). R e.0 e.1 e'.0 e'.1) es) es

-- A relation between the fills of any two orders.
abbrev pub AnyTwo : (Order → ℕ → Order → ℕ → Type 0) → List Order → (Order → ℕ) → Type 0
AnyTwo R os fill = All (λ o. All (λ o'. R o (fill o) o' (fill o')) os) os

-- Fills that agree stand in the same relation.
pub AnyTwo-agree :
    (R : Order → ℕ → Order → ℕ → Type 0) (os : List Order) (f g : Order → ℕ)
    → All (λ o. g o ≡ f o) os
    → AnyTwo R os f
    → AnyTwo R os g
AnyTwo-agree R os f g agree h =
    All-map {P = λ o. (g o ≡ f o) × All (λ o'. R o (f o) o' (f o')) os}
      (λ o (e, k).
        All-map {P = λ o'. (g o' ≡ f o') × R o (f o) o' (f o')} (λ o' (e', r). rw (e, e') r) os
          (All-zip _ _ os agree k))
      os (All-zip _ _ os agree h)

pairs-cons :
    (R : Order → ℕ → Order → ℕ → Type 0) (x : Entry) (es : List Entry)
    → R x.0 x.1 x.0 x.1
    → All (λ (e : Entry). R x.0 x.1 e.0 e.1) es
    → All (λ (e : Entry). R e.0 e.1 x.0 x.1) es
    → Pairs R es
    → Pairs R (x ∷ es)
pairs-cons R x es own after before rest =
    ((own, after), All-zip (λ (e : Entry). R e.0 e.1 x.0 x.1) _ es before rest)

-- What holds of the orders of entries.
of_orders :
    (P : Order → Type 0) (os : List Order) (es : List Entry)
    → map order_of es ≡ os
    → All P os
    → All (λ (e : Entry). P e.0) es
of_orders P os es same h = All-of_map P order_of es (subst (All P) (sym same) h)

priority_asym :
    (side : Side) (a b : Order) → has_priority side a b ≡ true → has_priority side b a ≡ false
unfolding has_priority
priority_asym buy a b h = ground arith
priority_asym sell a b h = ground arith
priority_asym (invalid n) a b h = ground arith

priority_trans :
    (side : Side) (a b c : Order)
    → has_priority side b a ≡ false
    → has_priority side c b ≡ false
    → has_priority side c a ≡ false
unfolding has_priority
priority_trans buy a b c h k = ground arith
priority_trans sell a b c h k = ground arith
priority_trans (invalid n) a b c h k = ground arith

not-Before : (side : Side) (a b : Order) → has_priority side a b ≡ false → ¬ (Before side a b)
unfolding has_priority
not-Before buy a b h k = ground arith
not-Before sell a b h k = ground arith
not-Before (invalid n) a b h k = ground arith

pub sort-priority :
    (side : Side) (os : List Order) → IsSortedBy (has_priority side) (sort (has_priority side) os)
sort-priority side = sort-IsSortedBy (has_priority side) (priority_asym side) (priority_trans side)

Before-self : (side : Side) (a : Order) → ¬ (Before side a a)
Before-self buy a k = ground arith
Before-self sell a k = ground arith
Before-self (invalid n) a k = ground arith

turns_none : (os : List Order) → All (λ (e : Entry). e.1 ≡ 0) (turns 0 os)
turns_none [] = tt
turns_none (o ∷ os) =
    let nothing : min o.qty 0 ≡ 0 = omega arith in
    let left : sub64 0 0 ≡ 0 = sub64-eq 0 0 (omega arith) (omega arith) in
    rw (nothing, left) (refl, turns_none os)

-- Served in turn by priority, an order with a fill has all that are before it filled.
pub turns_served :
    (side : Side) (rem : ℕ) (os : List Order)
    → rem < u64_mod
    → IsSortedBy (has_priority side) os
    → Pairs (ServedFirst side) (turns rem os)
turns_served side rem [] w sorted = tt
turns_served side rem (o ∷ os) w sorted =
    let rest = sub64 rem (min o.qty rem) in
    let left : rest ≡ rem - min o.qty rem = sub64-eq rem (min o.qty rem) (omega arith) w in
    pairs-cons (ServedFirst side) (o, min o.qty rem) (turns rest os)
      (λ b. absurd (Before-self side o b))
      (elim (Bool-cases (leb o.qty rem)) [
        | inl e ↦
            All-of {P = λ (x : Entry). ServedFirst side o (min o.qty rem) x.0 x.1}
              (λ x b p. ground arith) (turns rest os)
        | inr e ↦
            let nothing : rest ≡ 0 = ground (arith, left) in
            rw nothing (
              All-map {P = λ (x : Entry). x.1 ≡ 0} (λ x z b p. absurd (omega (arith, z, p)))
                (turns 0 os) (turns_none os))
      ])
      (All-map {P = λ (x : Entry). ¬ (Before side x.0 o)} (λ x n b p. absurd (n b)) (turns rest os)
        (of_orders (λ x. ¬ (Before side x o)) os (turns rest os) (turns_orders rest os)
          (All-map (λ x h. not-Before side x o h) os sorted.0)))
      (turns_served side rest os (omega (arith, left)) sorted.1)

-- The remainder of a candidate is that of its order.
abbrev pub HasRemainder : ℕ → ℕ → AtTheMoneyCandidate → Type 0
HasRemainder v t c = c.remainder ≡ remainder_of v t c.order

pub candidate-HasRemainder :
    (v t : ℕ) (o : Order)
    → v < t
    → t < u64_mod
    → o.qty < u64_mod
    → HasRemainder v t (candidate v t o)
unfolding candidate
candidate-HasRemainder v t o vt tw qw =
    let small : o.qty * v % t < t = mod-lt (o.qty * v) (omega arith) in
    rw (mul128-eq o.qty v qw (omega arith)) (to_u64-eq (o.qty * v % t) (omega (arith, small)))

not-Ahead :
    (v t : ℕ) (c d : AtTheMoneyCandidate)
    → HasRemainder v t c
    → HasRemainder v t d
    → larger_remainder d c ≡ false
    → ¬ (Ahead v t d.order c.order)
unfolding larger_remainder
not-Ahead v t c d hc hd h (inl a) = ground arith
not-Ahead v t c d hc hd h (inr (same, inl a)) = ground arith
not-Ahead v t c d hc hd h (inr (same, inr (seqs, a))) = ground arith

-- Without a surplus no fill exceeds its exact share.
handed_none :
    (v t : ℕ) (cs : List AtTheMoneyCandidate)
    → v < t
    → All (λ c. c.order.qty < u64_mod) cs
    → All (IsShare v t) cs
    → All (λ (e : Entry). e.1 * t ≤ e.0.qty * v) (handed 0 cs)
handed_none v t [] vt qw sh = tt
handed_none v t (c ∷ cs) vt qw sh =
    let exact = extra_exact v t 0 c vt qw.0 sh.0 (omega arith) (λ h. absurd (omega arith)) in
    rw exact (omega (arith, sh.0), handed_none v t cs vt qw.1 sh.1)

-- The lots of the surplus go by remainder.
pub handed_first :
    (v t s : ℕ) (cs : List AtTheMoneyCandidate)
    → v < t
    → All (λ c. c.order.qty < u64_mod) cs
    → All (IsShare v t) cs
    → All (HasRemainder v t) cs
    → IsSortedBy larger_remainder cs
    → s * t ≤ remainders cs
    → Pairs (RoundedFirst v t) (handed s cs)
handed_first v t zero cs vt qw sh rs sorted h =
    let low = handed_none v t cs vt qw sh in
    All-of
      (λ (x : Entry).
        All-map {P = λ (e : Entry). e.1 * t ≤ e.0.qty * v} (λ e l a p. absurd (omega (arith, l, p)))
          (handed 0 cs) low)
      (handed 0 cs)
handed_first v t (suc s) [] vt qw sh rs sorted h = tt
handed_first v t (suc s) (c ∷ cs) vt qw sh rs sorted h =
    let left = surplus_meets_remainder t s c cs (omega arith) sorted h in
    let exact = extra_exact v t 1 c vt qw.0 sh.0 (omega arith) (λ h. left) in
    let up : c.order.qty * v < (c.base_fill + 1) * t = omega (arith, sh.0) in
    subst (Pairs (RoundedFirst v t)) (sym (handed-suc s c cs)) (
      subst (λ n. Pairs (RoundedFirst v t) ((c.order, n) ∷ handed s cs)) (sym exact)
        (pairs-cons (RoundedFirst v t) (c.order, c.base_fill + 1) (handed s cs) (λ a p. up)
          (All-of {P = λ (e : Entry). RoundedFirst v t c.order (c.base_fill + 1) e.0 e.1}
            (λ e a p. up) (handed s cs))
          (All-map {P = λ (e : Entry). ¬ (Ahead v t e.0 c.order)} (λ e n a p. absurd (n a))
            (handed s cs)
            (of_orders (λ o. ¬ (Ahead v t o c.order)) (map (λ d. d.order) cs) (handed s cs)
              (handed_orders s cs)
              (All-to_map (λ o. ¬ (Ahead v t o c.order)) (λ d. d.order) cs
                (All-map (λ d (hd, l). not-Ahead v t c d rs.0 hd l) cs
                  (All-zip (HasRemainder v t) (λ d. larger_remainder d c ≡ false) cs rs.1
                    sorted.0)))))
          (handed_first v t s cs vt qw.1 sh.1 rs.1 sorted.1 (omega (arith, sh.0)))))
