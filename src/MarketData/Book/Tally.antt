-- ===== src/MarketData/Book/Tally.antt =====
-- The price levels of one side as exact sums over the resting orders, and how they follow each change
-- of the orders.
use fair_cross.Prelude.{
  ℕ, ◌+◌, ◌-◌, ◌≤◌, ◌<◌, ◌≡◌, Bool, true, false, ◌&&◌, ◌==◌, if◌then◌else◌, none, some, All, arith,
  inl, inr, Bool-cases,
}
use fair_cross.Prelude.OrdMap.{
  OrdMap, lookup, insert, erase, IsOrdered, insert-IsOrdered, erase-IsOrdered, sum_values,
  sum_values-insert, sum_values-erase, All-insert,
}
use fair_cross.Domain.Words.{Price, Qty}
use fair_cross.Domain.Qty
use fair_cross.MarketData.Book.{BookOrder, level_at, take_from, drop_empty, replace_levels}
use fair_cross.MarketData.Book.Levels.{
  level_at-insert, Stores, insert-Stores, erase-Stores, drop_empty-Stores,
}

-- What an order adds to the level of a price, if it passes the test of the side.
abbrev pub weight : (BookOrder → Bool) → Price → BookOrder → ℕ
weight t p o = if t o && (o.price == p) then o.shares else 0

-- The levels hold, for each price, the sum of the shares of the side's orders there, and no empty
-- level.
pub record IsTally (t : BookOrder → Bool) (orders : OrdMap BookOrder) (m : OrdMap Qty)
    : Type 0 where
  pub ordered : IsOrdered m
  pub positive : All (λ e. 0 < e.1) m
  pub exact : (p : Price) → level_at p m ≡ sum_values (weight t p) orders

module _ (t : BookOrder → Bool) (k : ℕ) (orders : OrdMap BookOrder) (m : OrdMap Qty)
    (tally : IsTally t orders m) where
  -- Where no order weighs differently, the levels stand.
  pub IsTally-unchanged :
      (orders' : OrdMap BookOrder)
      → ((p : Price) → sum_values (weight t p) orders' ≡ sum_values (weight t p) orders)
      → IsTally t orders' m
  IsTally-unchanged orders' h = record {
    ordered = tally.ordered;
    positive = tally.positive;
    exact = λ p. omega (arith, h p, tally.exact p);
  }

  pub IsTally-add_other :
      (o : BookOrder)
      → IsOrdered orders
      → lookup k orders ≡ none
      → t o ≡ false
      → IsTally t (insert k o orders) m
  IsTally-add_other o s a f =
      IsTally-unchanged (insert k o orders)
        (λ p. ground (arith, sum_values-insert (weight t p) k o orders s))

  pub IsTally-add :
      (o : BookOrder)
      → IsOrdered orders
      → lookup k orders ≡ none
      → t o ≡ true
      → 0 < o.shares
      → IsTally t (insert k o orders) (insert o.price (level_at o.price m + o.shares) m)
  IsTally-add o s a f pos = record {
    ordered = insert-IsOrdered o.price (level_at o.price m + o.shares) m tally.ordered;
    positive =
        All-insert (λ e. 0 < e.1) o.price (level_at o.price m + o.shares) m (omega arith)
          tally.positive;
    exact = λ p. ground (
      arith,
      sum_values-insert (weight t p) k o orders s,
      level_at-insert p o.price (level_at o.price m + o.shares) m,
      tally.exact p,
      tally.exact o.price,
    );
  }

  module _ (o : BookOrder) (there : lookup k orders ≡ some o) where
    pub IsTally-remove_other : t o ≡ false → IsTally t (erase k orders) m
    IsTally-remove_other f =
        IsTally-unchanged (erase k orders)
          (λ p. ground (arith, sum_values-erase (weight t p) k o orders there))

    -- The level of an order covers its shares.
    pub level_covers : t o ≡ true → o.shares ≤ level_at o.price m
    level_covers f =
        ground (arith, sum_values-erase (weight t o.price) k o orders there, tally.exact o.price)

    -- The new levels after the removal of the order.
    pub IsTally-remove_to :
        (m' : OrdMap Qty)
        → t o ≡ true
        → Stores o.price (level_at o.price m - o.shares) m m'
        → IsTally t (erase k orders) m'
    IsTally-remove_to m' f st = record {
      ordered = st.ordered;
      positive = st.positive;
      exact = λ p. ground (
        arith,
        sum_values-erase (weight t p) k o orders there,
        st.level p,
        tally.exact p,
        level_covers f,
      );
    }

    pub IsTally-remove :
        t o ≡ true → IsTally t (erase k orders) (drop_empty o.price (take_from o.price o.shares m))
    unfolding Qty.saturating_sub
    IsTally-remove f =
        let covers = level_covers f in
        let taken : take_from o.price o.shares m
            ≡ insert o.price (level_at o.price m - o.shares) m =
          ground arith in
        rw taken (
          IsTally-remove_to _ f (
            drop_empty-Stores o.price (level_at o.price m - o.shares) m tally.ordered
              tally.positive))

    -- The order keeps its side and price, and loses shares.
    module _ (q : Qty) (o' : BookOrder) (less : o' ≡ record o { shares = o.shares - q })
        (part : q < o.shares) (sorted : IsOrdered orders) (alike : t o' ≡ t o) where
      pub IsTally-reduce_other : t o ≡ false → IsTally t (insert k o' orders) m
      IsTally-reduce_other f =
          IsTally-unchanged (insert k o' orders)
            (λ p. ground (arith, sum_values-insert (weight t p) k o' orders sorted))

      pub IsTally-reduce : t o ≡ true → IsTally t (insert k o' orders) (take_from o.price q m)
      unfolding Qty.saturating_sub
      IsTally-reduce f =
          let covers = level_covers f in
          let taken : take_from o.price q m ≡ insert o.price (level_at o.price m - q) m =
            ground arith in
          let st =
            insert-Stores o.price (level_at o.price m - q) m tally.ordered tally.positive
              (omega arith) in
          rw taken (record {
            ordered = st.ordered;
            positive = st.positive;
            exact = λ p. ground (
              arith,
              sum_values-insert (weight t p) k o' orders sorted,
              st.level p,
              tally.exact p,
            );
          })

    -- The order is exchanged for another of its side, under a free reference number.
    module _ (n : ℕ) (o' : BookOrder) (sorted : IsOrdered orders)
        (free : lookup n (erase k orders) ≡ none) (pos : 0 < o'.shares) where
      pub IsTally-replace_other :
          t o ≡ false → t o' ≡ false → IsTally t (insert n o' (erase k orders)) m
      IsTally-replace_other f f' = IsTally-unchanged (insert n o' (erase k orders)) (λ p. ground (
        arith,
        sum_values-erase (weight t p) k o orders there,
        sum_values-insert (weight t p) n o' (erase k orders) (erase-IsOrdered k orders sorted),
      ))

      exchanged :
          (m' : OrdMap Qty)
          → IsOrdered m'
          → All (λ e. 0 < e.1) m'
          → t o ≡ true
          → t o' ≡ true
          → ((p : Price) → level_at p m' + weight t p o ≡ level_at p m + weight t p o')
          → IsTally t (insert n o' (erase k orders)) m'
      exchanged m' a b f f' h = record {
        ordered = a;
        positive = b;
        exact = λ p. ground (
          arith,
          sum_values-erase (weight t p) k o orders there,
          sum_values-insert (weight t p) n o' (erase k orders) (erase-IsOrdered k orders sorted),
          tally.exact p,
          h p,
        );
      }

      pub IsTally-replace :
          (rest total : Qty)
          → t o ≡ true
          → t o' ≡ true
          → rest ≡ level_at o.price m - o.shares
          → total ≡ (if o'.price == o.price then rest else level_at o'.price m) + o'.shares
          → IsTally t (insert n o' (erase k orders)) (replace_levels o.price rest o'.price total m)
      unfolding replace_levels Qty.is_zero
      IsTally-replace rest total f f' r q = elim (Bool-cases (o'.price == o.price)) [
        | inl e ↦
            let st =
              insert-Stores o'.price total m tally.ordered tally.positive (omega (arith, q)) in
            rw e (
              exchanged _ st.ordered st.positive f f'
                (λ p. ground (arith, st.level p, level_covers f)))
        | inr e ↦ elim (Bool-cases (rest == 0)) [
          | inl z ↦
              rw (e, z)
                (moved (erase-Stores o.price rest m tally.ordered tally.positive (ground arith)) e)
          | inr z ↦
              rw (e, z)
                (moved (insert-Stores o.price rest m tally.ordered tally.positive (ground arith)) e)
        ]
      ]
        where
          moved :
              {m₁ : OrdMap Qty}
              → Stores o.price rest m m₁
              → (o'.price == o.price) ≡ false
              → IsTally t (insert n o' (erase k orders)) (insert o'.price total m₁)
          moved {m₁} s₁ e =
              let st = insert-Stores o'.price total m₁ s₁.ordered s₁.positive (omega (arith, q)) in
              exchanged _ st.ordered st.positive f f'
                (λ p. ground (arith, st.level p, s₁.level p, level_covers f))
