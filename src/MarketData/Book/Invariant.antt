-- ===== src/MarketData/Book/Invariant.antt =====
-- The invariant of the order book, and that every method keeps it.
use fair_cross.Prelude.{
  ℕ, ◌+◌, ◌-◌, ◌<◌, ◌≡◌, refl, Bool, true, false, not, ◌||◌, ◌==◌, if◌then◌else◌, none, some, All,
  arith, inl, inr, Bool-cases, Option-cases,
}
use fair_cross.Prelude.OrdMap.{
  OrdMap, lookup, insert, erase, IsOrdered, lookup-erase_ne, lookup-erase_self, insert-IsOrdered,
  erase-IsOrdered, All-insert, All-erase, All-lookup,
}
use fair_cross.Domain.Error.{Result, ok, err}
use fair_cross.Domain.Words.{Price, Qty}
use fair_cross.Domain.Qty
use fair_cross.Domain.Order.{Side, is_buy, is_sell}
use fair_cross.MarketData.Messages.{
  ItchMessage, system_event, stock_directory, add_order_message, order_executed,
  order_executed_with_price, order_cancel, order_delete, order_replace,
}
use fair_cross.MarketData.Book.{
  BookOrder, OrderBook, empty_book, levels_of, with_levels, level_at, replace_levels, present,
  add_order, fill_order, reduce_order, execute_found, execute_order, delete_order, replace_found,
  replace_order, change_by, apply_message, timestamp_of, settled_with,
}
use fair_cross.MarketData.Book.Tally.{
  IsTally, IsTally-add, IsTally-add_other, IsTally-remove, IsTally-remove_other, IsTally-reduce,
  IsTally-reduce_other, IsTally-replace, IsTally-replace_other,
}

-- A resting order has a proper side, a price and shares.
pub record IsResting (o : BookOrder) : Type 0 where
  pub proper_side : (is_buy o.side || is_sell o.side) ≡ true
  pub positive_price : 0 < o.price
  pub positive_shares : 0 < o.shares

abbrev pub on_bids : BookOrder → Bool
on_bids o = is_buy o.side

abbrev pub on_asks : BookOrder → Bool
on_asks o = not (is_buy o.side)

-- The orders are resting ones, filed under their reference numbers, and the levels of each side are
-- the sums of their shares at each price, with no empty level.
pub record IsConsistent (b : OrderBook) : Type 0 where
  pub ordered : IsOrdered b.orders_by_ref
  pub resting : All (λ e. IsResting e.1) b.orders_by_ref
  pub bids : IsTally on_bids b.orders_by_ref b.bids_by_price
  pub asks : IsTally on_asks b.orders_by_ref b.asks_by_price

pub empty_book-IsConsistent : IsConsistent empty_book
unfolding lookup
empty_book-IsConsistent = record {
  ordered = tt;
  resting = tt;
  bids = record { ordered = tt; positive = tt; exact = λ p. refl };
  asks = record { ordered = tt; positive = tt; exact = λ p. refl };
}

-- A book whose changed side is a tally of the new orders, and whose other side still is one.
with_levels-IsConsistent :
    (side : Side) (m : OrdMap Qty) (orders : OrdMap BookOrder) (b : OrderBook)
    → IsOrdered orders
    → All (λ e. IsResting e.1) orders
    → (is_buy side ≡ true → IsTally on_bids orders m × IsTally on_asks orders b.asks_by_price)
    → (is_buy side ≡ false → IsTally on_asks orders m × IsTally on_bids orders b.bids_by_price)
    → IsConsistent (with_levels side m (record b { orders_by_ref = orders }))
with_levels-IsConsistent side m orders b s r h k = elim (Bool-cases (is_buy side)) [
  | inl e ↦ rw e (record { ordered = s; resting = r; bids = (h e).0; asks = (h e).1 })
  | inr e ↦ rw e (record { ordered = s; resting = r; bids = (k e).1; asks = (k e).0 })
]

module _ (b : OrderBook) (c : IsConsistent b) where
  pub add_order-IsConsistent :
      (ref_num : ℕ) (side : Side) (price : Price) (shares : Qty) {b' : OrderBook}
      → add_order ref_num side price shares b ≡ ok b'
      → IsConsistent b'
  unfolding add_order Qty.is_zero Qty.checked_add
  add_order-IsConsistent ref_num side price shares {b'} e =
      let o : BookOrder = record {
        order_reference_number = ref_num;
        side = side;
        price = price;
        shares = shares;
      } in
      let total = level_at price (levels_of side b) + shares in
      let proper : (is_buy side || is_sell side) ≡ true = ground arith in
      let positive : (0 < price) × (0 < shares) = ground arith in
      let free : lookup ref_num b.orders_by_ref ≡ none = ground arith in
      let orders = insert ref_num o b.orders_by_ref in
      let built : b'
          ≡ with_levels side (insert price total (levels_of side b))
              (record b { orders_by_ref = orders }) =
        ground arith in
      rw built (
        with_levels-IsConsistent side _ orders b
          (insert-IsOrdered ref_num o b.orders_by_ref c.ordered)
          (All-insert (λ e. IsResting e.1) ref_num o b.orders_by_ref (ground arith) c.resting)
          (λ q. rw q (
            IsTally-add on_bids ref_num b.orders_by_ref _ c.bids o c.ordered free q positive.1,
            IsTally-add_other on_asks ref_num b.orders_by_ref _ c.asks o c.ordered free (rw q),
          ))
          (λ q. rw q (
            IsTally-add on_asks ref_num b.orders_by_ref _ c.asks o c.ordered free (rw q) positive.1,
            IsTally-add_other on_bids ref_num b.orders_by_ref _ c.bids o c.ordered free q,
          )))

  module _ (k : ℕ) (o : BookOrder) (there : lookup k b.orders_by_ref ≡ some o) where
    rests : IsResting o
    rests = All-lookup IsResting k b.orders_by_ref c.resting there

    fill_order-IsConsistent : IsConsistent (fill_order k o b)
    unfolding fill_order
    fill_order-IsConsistent =
        with_levels-IsConsistent o.side _ (erase k b.orders_by_ref) b
          (erase-IsOrdered k b.orders_by_ref c.ordered)
          (All-erase (λ e. IsResting e.1) k b.orders_by_ref c.resting)
          (λ q. rw q (
            IsTally-remove on_bids k b.orders_by_ref _ c.bids o there q,
            IsTally-remove_other on_asks k b.orders_by_ref _ c.asks o there (rw q),
          ))
          (λ q. rw q (
            IsTally-remove on_asks k b.orders_by_ref _ c.asks o there (rw q),
            IsTally-remove_other on_bids k b.orders_by_ref _ c.bids o there q,
          ))

    reduce_order-IsConsistent :
        (q : Qty) → 0 < q → q < o.shares → IsConsistent (reduce_order k o q b)
    unfolding reduce_order Qty.saturating_sub
    reduce_order-IsConsistent q pos part =
        let o' : BookOrder = record o { shares = o.shares - q } in
        let less : Qty.saturating_sub o.shares q ≡ o.shares - q = ground arith in
        rw less (
          with_levels-IsConsistent o.side _ (insert k o' b.orders_by_ref) b
            (insert-IsOrdered k o' b.orders_by_ref c.ordered)
            (All-insert (λ e. IsResting e.1) k o' b.orders_by_ref (ground (arith, rests)) c.resting)
            (λ f. rw f (
              IsTally-reduce on_bids k b.orders_by_ref _ c.bids o there q o' refl part c.ordered
                  refl f,
              IsTally-reduce_other on_asks k b.orders_by_ref _ c.asks o there q o' refl part
                  c.ordered refl (rw f),
            ))
            (λ f. rw f (
              IsTally-reduce on_asks k b.orders_by_ref _ c.asks o there q o' refl part c.ordered
                  refl (rw f),
              IsTally-reduce_other on_bids k b.orders_by_ref _ c.bids o there q o' refl part
                  c.ordered refl f,
            )))

    execute_found-IsConsistent :
        (q : Qty) {b' : OrderBook} → execute_found k o q b ≡ ok b' → IsConsistent b'
    unfolding execute_found Qty.is_zero
    execute_found-IsConsistent q {b'} e = elim (Bool-cases (q == o.shares)) [
      | inl all ↦
          let built : b' ≡ fill_order k o b = ground arith in rw built fill_order-IsConsistent
      | inr some_left ↦
          let built : b' ≡ reduce_order k o q b = ground arith in
          rw built (reduce_order-IsConsistent q (ground arith) (ground arith))
    ]

    replace_found-IsConsistent :
        (n : ℕ) (q : Qty) (p : Price) {b' : OrderBook}
        → replace_found k o n q p b ≡ ok b'
        → IsConsistent b'
    unfolding replace_found Qty.is_zero Qty.checked_add Qty.checked_sub
    replace_found-IsConsistent n q p {b'} e =
        let o' : BookOrder = record {
          order_reference_number = n;
          side = o.side;
          price = p;
          shares = q;
        } in
        let m = levels_of o.side b in
        let rest = level_at o.price m - o.shares in
        let total = (if p == o.price then rest else level_at p m) + q in
        let orders = insert n o' (erase k b.orders_by_ref) in
        let positive : (0 < p) × (0 < q) = ground arith in
        let allowed : (n == k || not (present (lookup n b.orders_by_ref))) ≡ true = ground arith in
        let free : lookup n (erase k b.orders_by_ref) ≡ none = freed n allowed in
        let built : b'
            ≡ with_levels o.side (replace_levels o.price rest p total m)
                (record b { orders_by_ref = orders }) =
          ground arith in
        let sorted = erase-IsOrdered k b.orders_by_ref c.ordered in
        rw built (
          with_levels-IsConsistent o.side _ orders b
            (insert-IsOrdered n o' (erase k b.orders_by_ref) sorted)
            (All-insert (λ e. IsResting e.1) n o' (erase k b.orders_by_ref) (ground (arith, rests))
              (All-erase (λ e. IsResting e.1) k b.orders_by_ref c.resting))
            (λ f. rw f (
              IsTally-replace on_bids k b.orders_by_ref _ c.bids o there n o' c.ordered free
                  positive.1 _ _ f f refl refl,
              IsTally-replace_other on_asks k b.orders_by_ref _ c.asks o there n o' c.ordered free
                  positive.1 (rw f) (rw f),
            ))
            (λ f. rw f (
              IsTally-replace on_asks k b.orders_by_ref _ c.asks o there n o' c.ordered free
                  positive.1 _ _ (rw f) (rw f) refl refl,
              IsTally-replace_other on_bids k b.orders_by_ref _ c.bids o there n o' c.ordered free
                  positive.1 f f,
            )))
      where
        freed :
            (n : ℕ)
            → (n == k || not (present (lookup n b.orders_by_ref))) ≡ true
            → lookup n (erase k b.orders_by_ref) ≡ none
        freed n h = elim (Bool-cases (n == k)) [
          | inl e ↦
              let same : n ≡ k = ground arith in
              rw same (lookup-erase_self k b.orders_by_ref c.ordered)
          | inr e ↦ ground (arith, lookup-erase_ne n k b.orders_by_ref)
        ]

  pub execute_order-IsConsistent :
      (k : ℕ) (q : Qty) {b' : OrderBook} → execute_order k q b ≡ ok b' → IsConsistent b'
  unfolding execute_order
  execute_order-IsConsistent k q e = elim (Option-cases (lookup k b.orders_by_ref)) [
    | inl f ↦ cc (rw (f, execute_order) at e)
    | inr (o, f) ↦ execute_found-IsConsistent k o f q (rw (f, execute_order) at e)
  ]

  pub delete_order-IsConsistent :
      (k : ℕ) {b' : OrderBook} → delete_order k b ≡ ok b' → IsConsistent b'
  unfolding delete_order
  delete_order-IsConsistent k e = elim (Option-cases (lookup k b.orders_by_ref)) [
    | inl f ↦ cc (rw (f, delete_order) at e)
    | inr (o, f) ↦ execute_order-IsConsistent k o.shares (rw (f, delete_order) at e)
  ]

  pub replace_order-IsConsistent :
      (k n : ℕ) (q : Qty) (p : Price) {b' : OrderBook}
      → replace_order k n q p b ≡ ok b'
      → IsConsistent b'
  unfolding replace_order
  replace_order-IsConsistent k n q p e = elim (Option-cases (lookup k b.orders_by_ref)) [
    | inl f ↦ cc (rw (f, replace_order) at e)
    | inr (o, f) ↦ replace_found-IsConsistent k o f n q p (rw (f, replace_order) at e)
  ]

  change_by-IsConsistent :
      (m : ItchMessage) {b' : OrderBook} → change_by m b ≡ ok b' → IsConsistent b'
  unfolding change_by
  change_by-IsConsistent (system_event m) {b'} e = let same : b' ≡ b = cc in rw same c
  change_by-IsConsistent (stock_directory m) {b'} e = let same : b' ≡ b = cc in rw same c
  change_by-IsConsistent (add_order_message m) e = add_order-IsConsistent _ _ _ _ e
  change_by-IsConsistent (order_executed m) e = execute_order-IsConsistent _ _ e
  change_by-IsConsistent (order_executed_with_price m) e = execute_order-IsConsistent _ _ e
  change_by-IsConsistent (order_cancel m) e = execute_order-IsConsistent _ _ e
  change_by-IsConsistent (order_delete m) e = delete_order-IsConsistent _ e
  change_by-IsConsistent (order_replace m) e = replace_order-IsConsistent _ _ _ _ e

-- Every message, applied or refused, leaves a consistent book consistent.
pub apply_message-IsConsistent :
    (m : ItchMessage) (b : OrderBook) → IsConsistent b → IsConsistent (apply_message m b).0
unfolding apply_message
apply_message-IsConsistent m b c = go (change_by m b₁) refl
  where
    b₁ : OrderBook
    b₁ = record b { last_timestamp_nanos = timestamp_of m }

    c₁ : IsConsistent b₁
    c₁ = record { ordered = c.ordered; resting = c.resting; bids = c.bids; asks = c.asks }

    go : (r : Result OrderBook) → change_by m b₁ ≡ r → IsConsistent (settled_with b₁ r).0
    go (ok b') e = change_by-IsConsistent b₁ c₁ m e
    go (err f) e = c₁
