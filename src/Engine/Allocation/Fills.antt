-- ===== src/Engine/Allocation/Fills.antt =====
-- The fill maps: what a loop writes for each order is what the last loop reads, and the fills that
-- are handed out in turn add up.
use Prim.Native.Nat.{min}
use fair_cross.Prelude.{
  ℕ, ◌≤◌, ◌<◌, ◌≡◌, ◌≢◌, refl, List, [], ◌∷◌, map, some, sum_by, All, DistinctBy, arith,
}
use fair_cross.Prelude.OrdMap.{lookup, insert, lookup-insert}
use fair_cross.Domain.Words.{u64_mod, sub64, sub64-eq}
use fair_cross.Domain.Order.{Order}
use fair_cross.Engine.Allocation.{FillMap, fill_or_zero, fill_in_turn, fill_fully}

-- An order with its fill.
abbrev pub Entry : Type 0
Entry = Order × ℕ

abbrev pub order_of : Entry → Order
order_of e = e.0

abbrev pub fill_in : Entry → ℕ
fill_in e = e.1

abbrev pub put_all : List Entry → FillMap → FillMap
put_all [] m = m
put_all (e ∷ es) m = put_all es (insert e.0.id e.1 m)

-- What the map holds for an order.
abbrev pub filled : FillMap → Order → ℕ
filled m o = fill_or_zero (lookup o.id m)

lookup-put_all_ne :
    (k : ℕ) (es : List Entry) (m : FillMap)
    → All (λ o. o.id ≢ k) (map order_of es)
    → lookup k (put_all es m) ≡ lookup k m
lookup-put_all_ne k [] m h = refl
lookup-put_all_ne k (e ∷ es) m h =
    ground (arith, lookup-put_all_ne k es (insert e.0.id e.1 m) h.1, lookup-insert k e.0.id e.1 m)

lookup-put_all_head :
    (e : Entry) (es : List Entry) (m : FillMap)
    → DistinctBy (λ (o : Order). o.id) (map order_of (e ∷ es))
    → lookup e.0.id (put_all (e ∷ es) m) ≡ some e.1
lookup-put_all_head e es m d = ground (
  arith,
  lookup-put_all_ne e.0.id es (insert e.0.id e.1 m) d.0,
  lookup-insert e.0.id e.0.id e.1 m,
)

-- With different ids each order keeps its own fill.
pub filled-All {κ} :
    (P : Order → ℕ → Type κ) (es : List Entry) (m : FillMap)
    → DistinctBy (λ (o : Order). o.id) (map order_of es)
    → All (λ (e : Entry). P e.0 e.1) es
    → All (λ o. P o (filled (put_all es m) o)) (map order_of es)
filled-All P [] m d h = tt
filled-All P (e ∷ es) m d h =
    (rw (lookup-put_all_head e es m d) h.0, filled-All P es (insert e.0.id e.1 m) d.1 h.1)

pub filled-sum :
    (es : List Entry) (m : FillMap)
    → DistinctBy (λ (o : Order). o.id) (map order_of es)
    → sum_by (filled (put_all es m)) (map order_of es) ≡ sum_by fill_in es
filled-sum [] m d = refl
filled-sum (e ∷ es) m d =
    ground (arith, lookup-put_all_head e es m d, filled-sum es (insert e.0.id e.1 m) d.1)

-- The entries that `fill_in_turn` writes.
abbrev pub turns : ℕ → List Order → List Entry
turns rem [] = []
turns rem (o ∷ os) = (o, min o.qty rem) ∷ turns (sub64 rem (min o.qty rem)) os

pub fill_in_turn-put_all :
    (rem : ℕ) (os : List Order) (m : FillMap) → fill_in_turn rem os m ≡ put_all (turns rem os) m
unfolding fill_in_turn
fill_in_turn-put_all rem [] m = refl
fill_in_turn-put_all rem (o ∷ os) m =
    fill_in_turn-put_all (sub64 rem (min o.qty rem)) os (insert o.id (min o.qty rem) m)

pub turns_orders : (rem : ℕ) (os : List Order) → map order_of (turns rem os) ≡ os
turns_orders rem [] = refl
turns_orders rem (o ∷ os) = cc (turns_orders (sub64 rem (min o.qty rem)) os)

-- Together they use up the target, or fill every order.
pub turns_sum :
    (rem : ℕ) (os : List Order)
    → rem < u64_mod
    → sum_by fill_in (turns rem os) ≡ min rem (sum_by (λ o. o.qty) os)
turns_sum rem [] h = omega arith
turns_sum rem (o ∷ os) h = omega (
  arith,
  sub64-eq rem (min o.qty rem) (omega arith) h,
  turns_sum (sub64 rem (min o.qty rem)) os
      (omega (arith, sub64-eq rem (min o.qty rem) (omega arith) h)),
)

pub turns_bounded : (rem : ℕ) (os : List Order) → All (λ (e : Entry). e.1 ≤ e.0.qty) (turns rem os)
turns_bounded rem [] = tt
turns_bounded rem (o ∷ os) = (omega arith, turns_bounded (sub64 rem (min o.qty rem)) os)

-- The entries that `fill_fully` writes.
abbrev pub full : List Order → List Entry
full os = map (λ o. (o, o.qty)) os

pub fill_fully-put_all : (os : List Order) (m : FillMap) → fill_fully os m ≡ put_all (full os) m
unfolding fill_fully
fill_fully-put_all [] m = refl
fill_fully-put_all (o ∷ os) m = fill_fully-put_all os (insert o.id o.qty m)

pub full_orders : (os : List Order) → map order_of (full os) ≡ os
full_orders [] = refl
full_orders (o ∷ os) = cc (full_orders os)

pub full_sum : (os : List Order) → sum_by fill_in (full os) ≡ sum_by (λ o. o.qty) os
full_sum [] = refl
full_sum (o ∷ os) = omega (arith, full_sum os)

pub full_exact : (os : List Order) → All (λ (e : Entry). e.1 ≡ e.0.qty) (full os)
full_exact [] = tt
full_exact (o ∷ os) = (refl, full_exact os)

-- A target that covers all orders fills them all.
pub turns_full :
    (rem : ℕ) (os : List Order)
    → rem < u64_mod
    → sum_by (λ o. o.qty) os ≤ rem
    → All (λ (e : Entry). e.1 ≡ e.0.qty) (turns rem os)
turns_full rem [] h k = tt
turns_full rem (o ∷ os) h k =
    let left = sub64-eq rem (min o.qty rem) (omega arith) h in
    (
      omega arith,
      turns_full (sub64 rem (min o.qty rem)) os (omega (arith, left)) (omega (arith, left)),
    )
