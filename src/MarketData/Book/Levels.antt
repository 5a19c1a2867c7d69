-- ===== src/MarketData/Book/Levels.antt =====
-- Writes to the price levels of one side.
use fair_cross.Prelude.{◌<◌, ◌≡◌, ◌≢◌, refl, ◌==◌, if◌then◌else◌, All, arith, inl, inr, Bool-cases}
use fair_cross.Prelude.OrdMap.{
  OrdMap, insert, erase, IsOrdered, lookup-insert, lookup-erase_ne, lookup-erase_self,
  insert-IsOrdered, erase-IsOrdered, All-insert, All-erase, All-erase_insert,
}
use fair_cross.Domain.Words.{Price, Qty}
use fair_cross.Domain.Qty
use fair_cross.MarketData.Book.{level_at, drop_empty}

pub level_at-insert :
    (p k : Price) (q : Qty) (m : OrdMap Qty)
    → level_at p (insert k q m) ≡ (if p == k then q else level_at p m)
level_at-insert p k q m = ground (arith, lookup-insert p k q m)

pub level_at-erase :
    (p k : Price) (m : OrdMap Qty)
    → IsOrdered m
    → level_at p (erase k m) ≡ (if p == k then 0 else level_at p m)
level_at-erase p k m o = elim (Bool-cases (p == k)) [
  | inl e ↦ let same : p ≡ k = ground arith in rw (e, same, lookup-erase_self k m o) refl
  | inr e ↦ let other : p ≢ k = ground arith in rw (e, lookup-erase_ne p k m other) refl
]

-- `m'` is `m` with the quantity `q` at the price `p`, and holds no empty level.
pub record Stores (p : Price) (q : Qty) (m m' : OrdMap Qty) : Type 0 where
  pub ordered : IsOrdered m'
  pub positive : All (λ e. 0 < e.1) m'
  pub level : (j : Price) → level_at j m' ≡ (if j == p then q else level_at j m)

module _ (p : Price) (q : Qty) (m : OrdMap Qty) (s : IsOrdered m) (h : All (λ e. 0 < e.1) m) where
  pub insert-Stores : 0 < q → Stores p q m (insert p q m)
  insert-Stores pos = record {
    ordered = insert-IsOrdered p q m s;
    positive = All-insert (λ e. 0 < e.1) p q m pos h;
    level = λ j. level_at-insert j p q m;
  }

  pub erase-Stores : q ≡ 0 → Stores p q m (erase p m)
  erase-Stores z = record {
    ordered = erase-IsOrdered p m s;
    positive = All-erase (λ e. 0 < e.1) p m h;
    level = λ j. ground (arith, level_at-erase j p m s);
  }

  insert-erase-Stores : q ≡ 0 → Stores p q m (erase p (insert p q m))
  insert-erase-Stores z = record {
    ordered = erase-IsOrdered p (insert p q m) (insert-IsOrdered p q m s);
    positive = All-erase_insert (λ e. 0 < e.1) p q m h;
    level = λ j. ground (
      arith,
      level_at-erase j p (insert p q m) (insert-IsOrdered p q m s),
      level_at-insert j p q m,
    );
  }

  -- A write that is undone where the level is empty.
  pub drop_empty-Stores : Stores p q m (drop_empty p (insert p q m))
  unfolding Qty.is_zero
  drop_empty-Stores = elim (Bool-cases (q == 0)) [
    | inl e ↦
        let here : level_at p (insert p q m) ≡ q = ground (arith, level_at-insert p p q m) in
        rw (here, e) (insert-erase-Stores (ground arith))
    | inr e ↦
        let here : level_at p (insert p q m) ≡ q = ground (arith, level_at-insert p p q m) in
        rw (here, e) (insert-Stores (ground arith))
  ]
