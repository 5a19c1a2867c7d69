-- ===== src/Engine/Accounting/Sound.antt =====
-- cpp/src/engine/accounting.cpp: what the check of an account implies.
use fair_cross.Prelude.{
  ℕ, ◌<◌, ◌≡◌, ◌≢◌, ◌⊎◌, refl, sym, ◌∙◌, subst, true, ◌&&◌, ◌==◌, List, [], ◌∷◌, Option, none, some,
  length, get_or, All, All-map, DistinctBy, arith,
}
use fair_cross.Prelude.OrdMap.{OrdMap, lookup, insert, lookup-insert}
use fair_cross.Domain.Error.{ok, guard, IsOk, IsOk-eq-ok, >>=-eq-ok, guard-eq-ok, Error}
use fair_cross.Domain.Order.{Order}
use fair_cross.Engine.Batch.{Batch}
use fair_cross.Engine.Allocation.{BatchAllocation}
use fair_cross.Engine.Checker.{order_map}
use fair_cross.Engine.Checker.Sound.{is_same-eq}
use fair_cross.Commitments.Sha256.{Commitment}
use fair_cross.Commitments.Collision.{NodeClash}
use fair_cross.Commitments.Merkle.{MerkleProof, new_tree, root, generate_proof, verify}
use fair_cross.Commitments.Merkle.Inclusion.{generate_proof_verifies}
use fair_cross.Commitments.Merkle.Binding.{climbed_pairs, verify_binding}
use fair_cross.Engine.Accounting.{
  OrderDisposition, OrderAccountingRecord, CompleteInputAccounting, allocated_to, disposition_of,
  same_disposition, Seen, insert_new, is_free, found_proof, found_order, OrderDisposition-discrete,
  check_record, check_records, verify_complete_input_accounting,
}

-- A record that agrees with the tree, the batch and the allocation: it is of a leaf of the tree, whose
-- own proof verifies the record's commitment against the root, so that the leaf is the commitment or
-- two pairs joined on the way up from them collide; its order is one of the batch, and its disposition
-- is what the allocation makes of that order.
pub record IsAccounted (leaves : List Commitment) (orders : OrdMap Order)
    (allocation : BatchAllocation) (r : OrderAccountingRecord) : Type 0 where
  pub in_tree : r.leaf_index < length leaves
  pub proof : MerkleProof
  pub proves : generate_proof (new_tree leaves) r.leaf_index ≡ some proof
  pub verified : verify proof (root (new_tree leaves)) r.commitment ≡ true
  pub committed :
      (get_or leaves r.leaf_index [] ≡ r.commitment)
      ⊎ NodeClash
          (climbed_pairs proof.path (get_or leaves r.leaf_index []))
          (climbed_pairs proof.path r.commitment)
  pub order : Order
  pub in_batch : lookup r.order_id orders ≡ some order
  pub disposed : r.disposition ≡ disposition_of order.qty (allocated_to r.order_id allocation)

insert_new-eq-ok :
    (k : ℕ) (seen : Seen) (e : Error) {seen' : Seen}
    → insert_new k seen e ≡ ok seen'
    → (lookup k seen ≡ none) × (seen' ≡ insert k tt seen)
unfolding insert_new
insert_new-eq-ok k seen e h =
    let (u, free, rest) = >>=-eq-ok (guard (is_free (lookup k seen)) e) _ h in
    (free_none (lookup k seen) (guard-eq-ok _ _ free), ok_values (sym rest))
  where
    free_none : (o : Option (Unit {0})) → is_free o ≡ true → o ≡ none
    free_none none h = refl
    free_none (some u) h = cc

    ok_values : {a b : Seen} → ok a ≡ ok b → a ≡ b
    ok_values h = cc

found_proof-eq-ok :
    (o : Option MerkleProof) {proof : MerkleProof} → found_proof o ≡ ok proof → o ≡ some proof
found_proof-eq-ok none h = cc
found_proof-eq-ok (some proof) h = cc

found_order-eq-ok : (o : Option Order) {order : Order} → found_order o ≡ ok order → o ≡ some order
found_order-eq-ok none h = cc
found_order-eq-ok (some order) h = cc

-- A leaf that verifies by the tree's own proof is the one at its index, or collides with it.
committed_leaf :
    (leaves : List Commitment) (i : ℕ) (proof : MerkleProof) (c : Commitment)
    → i < length leaves
    → generate_proof (new_tree leaves) i ≡ some proof
    → verify proof (root (new_tree leaves)) c ≡ true
    → (get_or leaves i [] ≡ c)
      ⊎ NodeClash (climbed_pairs proof.path (get_or leaves i [])) (climbed_pairs proof.path c)
committed_leaf leaves i proof c below made h =
    let (own, made', _, passes) = generate_proof_verifies leaves i below in
    let same : own ≡ proof = some_values (sym made' ∙ made) in
    verify_binding proof (root (new_tree leaves)) (get_or leaves i []) c
      (subst (λ p. verify p (root (new_tree leaves)) (get_or leaves i []) ≡ true) same passes) h
  where
    some_values : {p q : MerkleProof} → some p ≡ some q → p ≡ q
    some_values h = cc

generated :
    (leaves : List Commitment) (i : ℕ) {proof : MerkleProof}
    → generate_proof (new_tree leaves) i ≡ some proof
    → i < length leaves
unfolding generate_proof new_tree
generated [] i h = ground arith
generated (leaf ∷ leaves) i h = ground arith

same_disposition-eq : (d e : OrderDisposition) → same_disposition d e ≡ true → d ≡ e
same_disposition-eq d e h = is_same-eq OrderDisposition-discrete d e h

apart :
    (j k : ℕ) (seen : Seen) → lookup j (insert k tt seen) ≡ none → (lookup j seen ≡ none) × (j ≢ k)
apart j k seen h = ground (arith, lookup-insert j k tt seen)

-- Nothing that was seen before comes again.
abbrev Fresh : (OrderAccountingRecord → ℕ) → Seen → List OrderAccountingRecord → Type 0
Fresh key seen records = All (λ r. lookup (key r) seen ≡ none) records × DistinctBy key records

module _ (leaves : List Commitment) (orders : OrdMap Order) (allocation : BatchAllocation) where
  check_record-eq-ok :
      (r : OrderAccountingRecord) (indices ids : Seen) {seen : Seen × Seen}
      → check_record (new_tree leaves) orders allocation r (indices, ids) ≡ ok seen
      → IsAccounted leaves orders allocation r
        × (lookup r.leaf_index indices ≡ none)
        × (lookup r.order_id ids ≡ none)
        × (seen ≡ (insert r.leaf_index tt indices, insert r.order_id tt ids))
  unfolding check_record
  check_record-eq-ok r indices ids h =
      let (s1, a1, h1) = >>=-eq-ok (insert_new r.leaf_index indices _) _ h in
      let (s2, a2, h2) = >>=-eq-ok (insert_new r.order_id ids _) _ h1 in
      let (proof, a3, h3) =
        >>=-eq-ok (found_proof (generate_proof (new_tree leaves) r.leaf_index)) _ h2 in
      let (_, g4, h4) =
        >>=-eq-ok (guard (verify proof (root (new_tree leaves)) r.commitment) _) _ h3 in
      let (order, a5, h5) = >>=-eq-ok (found_order (lookup r.order_id orders)) _ h4 in
      let (_, g6, h6) =
        >>=-eq-ok
          (guard
            (same_disposition r.disposition
              (disposition_of order.qty (allocated_to r.order_id allocation)))
            _)
          _ h5 in
      let new_index = insert_new-eq-ok r.leaf_index indices _ a1 in
      let new_id = insert_new-eq-ok r.order_id ids _ a2 in
      let made = found_proof-eq-ok _ a3 in
      let below = generated leaves r.leaf_index made in
      (
        record {
          in_tree = below;
          proof = proof;
          proves = made;
          verified = guard-eq-ok _ _ g4;
          committed =
              committed_leaf leaves r.leaf_index proof r.commitment below made (guard-eq-ok _ _ g4);
          order = order;
          in_batch = found_order-eq-ok _ a5;
          disposed = same_disposition-eq _ _ (guard-eq-ok _ _ g6);
        },
        new_index.0,
        new_id.0,
        seen_values h6 ∙ (λ i. (new_index.1 i, new_id.1 i)),
      )
    where
      seen_values : {a b : Seen × Seen} → ok a ≡ ok b → b ≡ a
      seen_values h = cc

  -- What follows a key is fresh after it exactly if it is fresh and different.
  Fresh-cons :
      (key : OrderAccountingRecord → ℕ) (seen : Seen) (r : OrderAccountingRecord)
      (records : List OrderAccountingRecord)
      → lookup (key r) seen ≡ none
      → Fresh key (insert (key r) tt seen) records
      → Fresh key seen (r ∷ records)
  Fresh-cons key seen r records h f =
      let later =
        All-map {Q = λ (q : OrderAccountingRecord). (lookup (key q) seen ≡ none) × (key q ≢ key r)}
          (λ q e. apart (key q) (key r) seen e) records f.0 in
      ((h, All-map (λ q e. e.0) records later), (All-map (λ q e. e.1) records later, f.1))

  check_records-eq-ok :
      (records : List OrderAccountingRecord) (indices ids : Seen) {seen : Seen × Seen}
      → check_records (new_tree leaves) orders allocation records (indices, ids) ≡ ok seen
      → All (IsAccounted leaves orders allocation) records
        × Fresh (λ r. r.leaf_index) indices records
        × Fresh (λ r. r.order_id) ids records
  unfolding check_records
  check_records-eq-ok [] indices ids h = (tt, (tt, tt), (tt, tt))
  check_records-eq-ok (r ∷ records) indices ids {seen = final} h =
      let (seen, a, rest) =
        >>=-eq-ok (check_record (new_tree leaves) orders allocation r (indices, ids)) _ h in
      let (accounted, index, id, next) = check_record-eq-ok r indices ids a in
      let (all, fresh_indices, fresh_ids) =
        check_records-eq-ok records (insert r.leaf_index tt indices) (insert r.order_id tt ids) (
          subst (λ s. check_records (new_tree leaves) orders allocation records s ≡ ok final) next
            rest) in
      (
        (accounted, all),
        Fresh-cons (λ q. q.leaf_index) indices r records index fresh_indices,
        Fresh-cons (λ q. q.order_id) ids r records id fresh_ids,
      )

-- An account that is accepted for the tree of some leaves has as many records as the batch has orders
-- and the tree has leaves, no two of them of one leaf or of one order, and each of them agrees with
-- the tree, the batch and the allocation.
pub verify_complete_input_accounting_sound :
    (b : Batch) (leaves : List Commitment) (accounting : CompleteInputAccounting)
    (allocation : BatchAllocation)
    → IsOk (verify_complete_input_accounting b (new_tree leaves) accounting allocation)
    → (length accounting.records ≡ length b.orders)
      × (accounting.total_committed ≡ length b.orders)
      × (length (new_tree leaves).leaves ≡ length b.orders)
      × DistinctBy (λ r. r.leaf_index) accounting.records
      × DistinctBy (λ r. r.order_id) accounting.records
      × All (IsAccounted leaves (order_map b.orders []) allocation) accounting.records
unfolding verify_complete_input_accounting
verify_complete_input_accounting_sound b leaves accounting allocation h =
    let (u, e) = IsOk-eq-ok _ h in
    let (_, g1, e1) =
      >>=-eq-ok (guard (length (new_tree leaves).leaves == length b.orders) _) _ e in
    let (_, g2, e2) =
      >>=-eq-ok
        (guard
          (length accounting.records == length b.orders
            && accounting.total_committed == length b.orders)
          _)
        _ e1 in
    let (seen, a3, e3) =
      >>=-eq-ok
        (check_records (new_tree leaves) (order_map b.orders []) allocation accounting.records
          ([], []))
        _ e2 in
    let (all, indices, ids) =
      check_records-eq-ok leaves (order_map b.orders []) allocation accounting.records [] [] a3 in
    let same_sizes = guard-eq-ok _ _ g2 in
    (ground arith, ground arith, ground (arith, guard-eq-ok _ _ g1), indices.1, ids.1, all)
