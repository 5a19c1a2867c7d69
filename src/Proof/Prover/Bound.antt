-- ===== src/Proof/Prover/Bound.antt =====
-- cpp/src/proof/prover.cpp: what the binding of the inputs has checked.
use fair_cross.Prelude.{
  ℕ, suc, ◌≡◌, ◌≤◌, ◌∙◌, ap, refl, sym, subst, inl, inr, arith, Bool-cases, Any, not, ◌||◌, ltb,
  leb, ◌==◌, List, [], ◌∷◌, map, Option, none, some, length, String, All, All-map,
}
use fair_cross.Prelude.OrdMap.{OrdMap, lookup, insert, lookup-insert}
use fair_cross.Domain.Error.{Result, ok, err, guard, >>=-eq-ok, guard-eq-ok}
use fair_cross.Domain.Order.{Order, SaltedOrderPreimage}
use fair_cross.Engine.Checker.{is_same}
use fair_cross.Engine.Checker.Sound.{is_same-eq}
use fair_cross.Engine.Accounting.{OrderAccountingRecord, CompleteInputAccounting}
use fair_cross.Commitments.Sha256.{Commitment}
use fair_cross.Commitments.Merkle.{MerkleTree, new_tree, same_bytes}
use fair_cross.Commitments.Merkle.Binding.{same_bytes-eq}
use fair_cross.Commitments.Payloads.{commit_order, compute_batch_commitment}
use fair_cross.Proof.Statement.{BatchProofPublicInputs, BatchProofWitness}
use fair_cross.Proof.Constraints.CompleteInput.{headed}
use fair_cross.Proof.Prover.{
  Order-discrete, placed_record, bind_leaves, is_there, place_records, canonical_from, header_of,
  bind_inputs,
}

pub headed-eq-ok {ℓ} :
    {A : Type ℓ} (heading : String) (m : Result A) {a : A} → headed heading m ≡ ok a → m ≡ ok a
headed-eq-ok heading (ok a) h = h
headed-eq-ok heading (err e) h = cc

-- The leaves of a tree that the preimages and the orders share.
bind_leaves-eq-ok :
    (preimages : List SaltedOrderPreimage) (orders : List Order) {leaves : List Commitment}
    → bind_leaves preimages orders ≡ ok leaves
    → length preimages ≡ length orders
    → (map (λ p. p.order) preimages ≡ orders)
      × (leaves ≡ map commit_order preimages)
      × (length orders ≡ length leaves)
unfolding bind_leaves
bind_leaves-eq-ok [] [] {leaves} h sizes =
    let none_left : [] ≡ leaves = cc in (refl, sym none_left, ap length none_left)
bind_leaves-eq-ok [] (o ∷ orders) h sizes = absurd (omega arith)
bind_leaves-eq-ok (p ∷ preimages) [] h sizes = absurd (omega arith)
bind_leaves-eq-ok (p ∷ preimages) (o ∷ orders) {leaves} h sizes =
    let (_, g, e1) = >>=-eq-ok (guard (is_same Order-discrete p.order o) _) _ h in
    let (rest, a, e2) = >>=-eq-ok (bind_leaves preimages orders) _ e1 in
    let (same, tail, count) = bind_leaves-eq-ok preimages orders a (omega arith) in
    let first = is_same-eq Order-discrete p.order o (guard-eq-ok _ _ g) in
    let whole : commit_order p ∷ rest ≡ leaves = cc in
    (
      λ i. first i ∷ same i,
      sym whole ∙ ap (λ l. commit_order p ∷ l) tail,
      ap suc count ∙ ap length whole,
    )

-- `P` of each record and its place, from `idx` on.
abbrev pub AllFrom : (ℕ → OrderAccountingRecord → Type 0) → ℕ → List OrderAccountingRecord → Type 0
AllFrom P idx [] = Unit
AllFrom P idx (r ∷ records) = P idx r × AllFrom P (suc idx) records

place_records-eq-ok :
    (P : ℕ → OrderAccountingRecord → Type 0) (batch_len : ℕ) (records : List OrderAccountingRecord)
    (before : OrdMap OrderAccountingRecord) {placed : OrdMap OrderAccountingRecord}
    → place_records batch_len records before ≡ ok placed
    → All (λ r. P r.leaf_index r) records
    → ((k : ℕ) (r : OrderAccountingRecord) → lookup k before ≡ some r → P k r)
    → (k : ℕ) (r : OrderAccountingRecord) → lookup k placed ≡ some r
    → P k r
unfolding place_records
place_records-eq-ok P batch_len [] before h all old =
    λ k r found. let same : before ≡ _ = cc in old k r (ap (lookup k) same ∙ found)
place_records-eq-ok P batch_len (q ∷ records) before h all old =
    let (_, _, e) =
      >>=-eq-ok
        (guard (not (leb batch_len q.leaf_index || is_there (lookup q.leaf_index before))) _) _ h in
    place_records-eq-ok P batch_len records (insert q.leaf_index q before) e all.1 (λ j s found.
      let at = sym (lookup-insert j q.leaf_index q before) ∙ found in
      elim (Bool-cases (j == q.leaf_index)) [
        | inl here ↦
            let index : j ≡ q.leaf_index = ground arith in
            let same : q ≡ s = cc in
            subst (λ n. P n s) (sym index) (subst (P q.leaf_index) same all.0)
        | inr there ↦ old j s (cc)
      ])

placed_record-eq-ok :
    (o : Option OrderAccountingRecord) {r : OrderAccountingRecord}
    → placed_record o ≡ ok r
    → o ≡ some r
placed_record-eq-ok none h = cc
placed_record-eq-ok (some r) h = cc

canonical_from-eq-ok :
    (P : ℕ → OrderAccountingRecord → Type 0) (placed : OrdMap OrderAccountingRecord)
    → ((k : ℕ) (r : OrderAccountingRecord) → lookup k placed ≡ some r → P k r)
    → (idx : ℕ) (orders : List Order) (leaves : List Commitment)
      {records : List OrderAccountingRecord}
    → canonical_from idx orders leaves placed ≡ ok records
    → length orders ≡ length leaves
    → (map (λ r. r.order_id) records ≡ map (λ o. o.id) orders)
      × (map (λ r. r.commitment) records ≡ leaves)
      × AllFrom P idx records
unfolding canonical_from
canonical_from-eq-ok P placed facts idx [] [] {records} h sizes =
    let none_left : [] ≡ records = cc in
    subst
      (λ rs. (map (λ r. r.order_id) rs ≡ []) × (map (λ r. r.commitment) rs ≡ []) × AllFrom P idx rs)
      none_left (refl, refl, tt)
canonical_from-eq-ok P placed facts idx [] (l ∷ leaves) h sizes = absurd (omega arith)
canonical_from-eq-ok P placed facts idx (o ∷ orders) [] h sizes = absurd (omega arith)
canonical_from-eq-ok P placed facts idx (o ∷ orders) (leaf ∷ leaves) {records} h sizes =
    let (r, found, e1) = >>=-eq-ok (placed_record (lookup idx placed)) _ h in
    let (_, g1, e2) = >>=-eq-ok (guard (r.order_id == o.id) _) _ e1 in
    let (_, g2, e3) = >>=-eq-ok (guard (same_bytes r.commitment leaf) _) _ e2 in
    let (rest, a, e4) = >>=-eq-ok (canonical_from (suc idx) orders leaves placed) _ e3 in
    let (ids, commitments, all) =
      canonical_from-eq-ok P placed facts (suc idx) orders leaves a (omega arith) in
    let id : r.order_id ≡ o.id = ground (arith, guard-eq-ok _ _ g1) in
    let commitment = same_bytes-eq _ _ (guard-eq-ok _ _ g2) in
    let whole : r ∷ rest ≡ records = cc in
    subst
      (λ rs.
        (map (λ r. r.order_id) rs ≡ o.id ∷ map (λ o. o.id) orders)
        × (map (λ r. r.commitment) rs ≡ leaf ∷ leaves)
        × AllFrom P idx rs)
      whole
      (
        λ i. id i ∷ ids i,
        λ i. commitment i ∷ commitments i,
        (facts idx r (placed_record-eq-ok (lookup idx placed) found), all),
      )

-- A witness bound to the public inputs: its preimages are of the orders of the batch, the published
-- header is of them, and `accounting` is the account of the witness with its records in the order of
-- the leaves, one for each order, with the commitment to its preimage.
pub record IsBound (public_inputs : BatchProofPublicInputs) (witness : BatchProofWitness)
    (accounting : CompleteInputAccounting) : Type 0 where
  pub preimages : map (λ p. p.order) witness.preimages ≡ witness.batch.orders
  pub fits : length witness.batch.orders ≤ 4294967295
  pub header :
      compute_batch_commitment (header_of witness (new_tree (map commit_order witness.preimages)))
      ≡ public_inputs.batch_header_hash
  pub sizes : length witness.accounting.records ≡ length witness.batch.orders
  pub ids : map (λ r. r.order_id) accounting.records ≡ map (λ o. o.id) witness.batch.orders
  pub commitments : map (λ r. r.commitment) accounting.records ≡ map commit_order witness.preimages
  pub records :
      AllFrom
        (λ idx r. (r.leaf_index ≡ idx) × Any (λ q. q ≡ r) witness.accounting.records)
        0
        accounting.records
  pub total : accounting.total_committed ≡ witness.accounting.total_committed

Any-self : (xs : List OrderAccountingRecord) → All (λ x. Any (λ q. q ≡ x) xs) xs
Any-self [] = tt
Any-self (x ∷ xs) = (inl refl, All-map (λ y h. inr h) xs (Any-self xs))

pub bind_inputs-eq-ok :
    (public_inputs : BatchProofPublicInputs) (witness : BatchProofWitness)
    {bound : MerkleTree × CompleteInputAccounting}
    → bind_inputs public_inputs witness ≡ ok bound
    → (accounting : CompleteInputAccounting) × (bound
        ≡ (new_tree (map commit_order witness.preimages), accounting))
      × IsBound public_inputs witness accounting
unfolding bind_inputs lookup
bind_inputs-eq-ok public_inputs witness {bound} h =
    let batch_len = length witness.batch.orders in
    let (_, g1, e1) = >>=-eq-ok (guard (length witness.preimages == batch_len) _) _ h in
    let (_, g2, e2) = >>=-eq-ok (guard (not (ltb 4294967295 batch_len)) _) _ e1 in
    let (leaves, a3, e3) = >>=-eq-ok (bind_leaves witness.preimages witness.batch.orders) _ e2 in
    let (_, g4, e4) = >>=-eq-ok (guard (same_bytes _ _) _) _ e3 in
    let (_, g5, e5) = >>=-eq-ok (guard (length witness.accounting.records == batch_len) _) _ e4 in
    let (placed, a6, e6) = >>=-eq-ok (place_records batch_len witness.accounting.records []) _ e5 in
    let (records, a7, e7) = >>=-eq-ok (canonical_from 0 witness.batch.orders leaves placed) _ e6 in
    let (preimages, same_leaves, count) =
      bind_leaves-eq-ok _ _ a3 (ground (arith, guard-eq-ok _ _ g1)) in
    let facts =
      place_records-eq-ok
        (λ idx r. (r.leaf_index ≡ idx) × Any (λ q. q ≡ r) witness.accounting.records) batch_len
        witness.accounting.records [] a6
        (All-map (λ r h. (refl, h)) witness.accounting.records
          (Any-self witness.accounting.records))
        (λ k r h. cc) in
    let (ids, commitments, all) =
      canonical_from-eq-ok _ placed facts 0 witness.batch.orders leaves a7 count in
    let final : (new_tree leaves, record witness.accounting { records = records }) ≡ bound = cc in
    (
      record witness.accounting { records = records },
      sym final
          ∙ (λ i. (new_tree (same_leaves i), record witness.accounting { records = records })),
      record {
        preimages = preimages;
        fits = ground (arith, guard-eq-ok _ _ g2);
        header =
            subst
              (λ l.
                compute_batch_commitment (header_of witness (new_tree l))
                ≡ public_inputs.batch_header_hash)
              same_leaves (same_bytes-eq _ _ (guard-eq-ok _ _ g4));
        sizes = ground (arith, guard-eq-ok _ _ g5);
        ids = ids;
        commitments = commitments ∙ same_leaves;
        records = all;
        total = refl;
      },
    )
