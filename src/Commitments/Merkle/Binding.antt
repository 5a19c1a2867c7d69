-- ===== src/Commitments/Merkle/Binding.antt =====
-- cpp/src/commitments/merkle.cpp: what a root and a proof commit to.
use mathlib.Core.Bool.{false≢true}
use mathlib.Core.List.{head-eq_of_cons-eq, tail-eq_of_cons-eq}
use fair_cross.Prelude.{
  All, ℕ, zero, suc, ◌≤◌, ◌<◌, ◌≡◌, ◌⊎◌, refl, sym, ◌∙◌, ap, Bool, Bool-cases, inl, inr, true, ltb,
  subst, if◌then◌else◌, ◌++◌, List, [], ◌∷◌, length, get_or, last_or, arith,
}
use fair_cross.Commitments.Sha256.{Commitment, combine_nodes, empty_node}
use fair_cross.Commitments.Bytes.{IsDigest, All-append, combine_nodes-IsDigest, empty_node-IsDigest}
use fair_cross.Commitments.Collision.{
  NodeClash, NodeCollision, IsNodePair, node_collision, collide, in_fronts, in_rests,
}
use fair_cross.Commitments.Merkle.{
  StepSide, MerkleStep, MerkleProof, joined, climbed, same_bytes, verify, next_layer, layers_above,
  new_tree, root, left, right,
}
use fair_cross.Commitments.Merkle.Inclusion.{same_bytes_self, root-new_tree, length-next_layer}

abbrev pair_of : StepSide → Commitment → Commitment → Commitment × Commitment
pair_of left sibling current = (sibling, current)
pair_of right sibling current = (current, sibling)

-- The pairs that the rounds of `verify` join.
abbrev pub climbed_pairs : List MerkleStep → Commitment → List (Commitment × Commitment)
climbed_pairs [] current = []
climbed_pairs (step ∷ path) current =
    pair_of step.side step.sibling current
    ∷ climbed_pairs path (joined step.side step.sibling current)

-- The pairs that a round of the constructor joins.
abbrev pub layer_pairs : List Commitment → List (Commitment × Commitment)
layer_pairs [] = []
layer_pairs (x ∷ []) = (x, empty_node) ∷ []
layer_pairs (x ∷ y ∷ layer) = (x, y) ∷ layer_pairs layer

-- The pairs of all its rounds, over a layer.
abbrev pub pairs_above : ℕ → List Commitment → List (Commitment × Commitment)
pairs_above zero layer = []
pairs_above (suc fuel) layer =
    let above = pairs_above fuel (next_layer layer) in
    if ltb 1 (length layer) then layer_pairs layer ++ above else []

-- The pairs that the constructor joins for some leaves.
abbrev pub tree_pairs : List Commitment → List (Commitment × Commitment)
tree_pairs leaves = pairs_above (length leaves) leaves

pub same_bytes-eq : (a b : Commitment) → same_bytes a b ≡ true → a ≡ b
unfolding same_bytes
same_bytes-eq [] [] h = refl
same_bytes-eq [] (y ∷ ys) h = absurd (false≢true h)
same_bytes-eq (x ∷ xs) [] h = absurd (false≢true h)
same_bytes-eq (x ∷ xs) (y ∷ ys) h =
    let heads : x ≡ y = ground arith in
    let tails : same_bytes xs ys ≡ true = ground arith in rw (heads, same_bytes-eq xs ys tails) refl

pub same_or_different : (a b : Commitment) → (a ≡ b) ⊎ (¬ (a ≡ b))
same_or_different a b = elim (Bool-cases (same_bytes a b)) [
  | inl e ↦ inl (same_bytes-eq a b e)
  | inr e ↦ inr (λ q. absurd (
      false≢true
        (sym e ∙ ap {A = Commitment} {B = Bool} (same_bytes a) (sym q) ∙ same_bytes_self a)))
]

-- Equal parents have equal children, or give a collision.
combine_nodes_binding :
    (a b c d : Commitment)
    → combine_nodes a b ≡ combine_nodes c d
    → ((a ≡ c) × (b ≡ d)) ⊎ NodeClash ((a, b) ∷ []) ((c, d) ∷ [])
combine_nodes_binding a b c d h = elim (same_or_different a c) [
  | inl p ↦ elim (same_or_different b d) [
    | inl q ↦ inl (p, q)
    | inr n ↦ inr (collide (a, b) (c, d) (λ q. n (λ i. (q i).1)) h)
  ]
  | inr n ↦ inr (collide (a, b) (c, d) (λ q. n (λ i. (q i).0)) h)
]

joined_binding :
    (side : StepSide) (sibling a b : Commitment)
    → joined side sibling a ≡ joined side sibling b
    → (a ≡ b) ⊎ NodeClash (pair_of side sibling a ∷ []) (pair_of side sibling b ∷ [])
unfolding joined
joined_binding left sibling a b e = elim (combine_nodes_binding sibling a sibling b e) [
  | inl p ↦ inl p.1
  | inr c ↦ inr c
]
joined_binding right sibling a b e = elim (combine_nodes_binding a sibling b sibling e) [
  | inl p ↦ inl p.0
  | inr c ↦ inr c
]

climbed_binding :
    (path : List MerkleStep) (a b : Commitment)
    → climbed path a ≡ climbed path b
    → (a ≡ b) ⊎ NodeClash (climbed_pairs path a) (climbed_pairs path b)
unfolding climbed
climbed_binding [] a b h = inl h
climbed_binding (step ∷ path) a b h =
    let p = pair_of step.side step.sibling a in
    let q = pair_of step.side step.sibling b in
    let a' = joined step.side step.sibling a in
    let b' = joined step.side step.sibling b in
    elim (climbed_binding path a' b' h) [
      | inl e ↦ elim (joined_binding step.side step.sibling a b e) [
        | inl same ↦ inl same
        | inr c ↦
            inr (in_fronts (p ∷ []) (climbed_pairs path a') (q ∷ []) (climbed_pairs path b') c)
      ]
      | inr c ↦ inr (in_rests (p ∷ []) (climbed_pairs path a') (q ∷ []) (climbed_pairs path b') c)
    ]

-- A proof that verifies two leaves against one root verifies the same leaf twice, or two different
-- pairs that it joins on the way up collide.
pub verify_binding :
    (proof : MerkleProof) (expected_root leaf leaf' : Commitment)
    → verify proof expected_root leaf ≡ true
    → verify proof expected_root leaf' ≡ true
    → (leaf ≡ leaf') ⊎ NodeClash (climbed_pairs proof.path leaf) (climbed_pairs proof.path leaf')
unfolding verify
verify_binding proof expected_root leaf leaf' h k = climbed_binding proof.path leaf leaf' (
    same_bytes-eq (climbed proof.path leaf) expected_root h
    ∙ sym (same_bytes-eq (climbed proof.path leaf') expected_root k))

next_layer_binding :
    (xs ys : List Commitment)
    → length xs ≡ length ys
    → next_layer xs ≡ next_layer ys
    → (xs ≡ ys) ⊎ NodeClash (layer_pairs xs) (layer_pairs ys)
unfolding next_layer
next_layer_binding [] [] n h = inl refl
next_layer_binding [] (y ∷ ys) n h = absurd (omega arith)
next_layer_binding (x ∷ xs) [] n h = absurd (omega arith)
next_layer_binding (x ∷ []) (y ∷ []) n h =
    elim (combine_nodes_binding x empty_node y empty_node (head-eq_of_cons-eq h)) [
      | inl p ↦ inl (ap {A = Commitment} {B = List Commitment} (λ z. z ∷ []) p.0)
      | inr c ↦ inr c
    ]
next_layer_binding (x ∷ []) (y ∷ y' ∷ ys) n h = absurd (omega arith)
next_layer_binding (x ∷ x' ∷ xs) (y ∷ []) n h = absurd (omega arith)
next_layer_binding (x ∷ x' ∷ xs) (y ∷ y' ∷ ys) n h =
    elim (combine_nodes_binding x x' y y' (head-eq_of_cons-eq h)) [
      | inl p ↦ elim (next_layer_binding xs ys (omega arith) (tail-eq_of_cons-eq h)) [
        | inl q ↦ inl (rw (p.0, p.1, q) refl)
        | inr c ↦ inr (in_rests ((x, x') ∷ []) (layer_pairs xs) ((y, y') ∷ []) (layer_pairs ys) c)
      ]
      | inr c ↦ inr (in_fronts ((x, x') ∷ []) (layer_pairs xs) ((y, y') ∷ []) (layer_pairs ys) c)
    ]

only_node : (xs : List Commitment) → length xs ≡ 1 → xs ≡ get_or xs 0 [] ∷ []
only_node [] h = absurd (omega arith)
only_node (x ∷ []) h = refl
only_node (x ∷ y ∷ xs) h = absurd (omega arith)

layers_binding :
    (fuel : ℕ) (xs ys : List Commitment)
    → length xs ≡ length ys
    → 0 < length xs
    → length xs ≤ suc fuel
    → get_or (last_or (xs ∷ layers_above fuel xs) []) 0 []
      ≡ get_or (last_or (ys ∷ layers_above fuel ys) []) 0 []
    → (xs ≡ ys) ⊎ NodeClash (pairs_above fuel xs) (pairs_above fuel ys)
unfolding layers_above
layers_binding zero xs ys n pos enough h = inl (
    only_node xs (omega arith)
    ∙ ap {A = Commitment} {B = List Commitment} (λ z. z ∷ []) h
    ∙ sym (only_node ys (omega arith)))
layers_binding (suc fuel) xs ys n pos enough h = elim (Bool-cases (ltb 1 (length xs))) [
  | inl e ↦
      let k = rw (← n, e) at h in
      let longer : ltb 1 (length ys) ≡ true = rw (← n) e in
      let above_xs = pairs_above fuel (next_layer xs) in
      let above_ys = pairs_above fuel (next_layer ys) in
      rw (e, longer)
        (elim (layers_binding fuel (next_layer xs) (next_layer ys)
          (omega (arith, n, length-next_layer xs, length-next_layer ys))
          (omega (arith, pos, length-next_layer xs)) (ground (arith, length-next_layer xs)) k) [
            | inl q ↦ elim (next_layer_binding xs ys n q) [
              | inl same ↦ inl same
              | inr c ↦ inr (in_fronts (layer_pairs xs) above_xs (layer_pairs ys) above_ys c)
            ]
            | inr c ↦ inr (in_rests (layer_pairs xs) above_xs (layer_pairs ys) above_ys c)
          ])
  | inr e ↦
      let k = rw (← n, e) at h in
      inl (
        only_node xs (ground arith)
        ∙ ap {A = Commitment} {B = List Commitment} (λ z. z ∷ []) k
        ∙ sym (only_node ys (ground arith)))
]

pub root_clash :
    (xs ys : List Commitment)
    → length xs ≡ length ys
    → root (new_tree xs) ≡ root (new_tree ys)
    → (xs ≡ ys) ⊎ NodeClash (tree_pairs xs) (tree_pairs ys)
root_clash [] [] n h = inl refl
root_clash [] (y ∷ ys) n h = absurd (omega arith)
root_clash (x ∷ xs) [] n h = absurd (omega arith)
root_clash (x ∷ xs) (y ∷ ys) n h =
    let shorter : length ys ≡ length xs = omega arith in
    let same_fuel : get_or (last_or ((y ∷ ys) ∷ layers_above (length (y ∷ ys)) (y ∷ ys)) []) 0 []
        ≡ get_or (last_or ((y ∷ ys) ∷ layers_above (length (x ∷ xs)) (y ∷ ys)) []) 0 [] =
      rw shorter refl in
    subst
      (λ fuel.
        (x ∷ xs ≡ y ∷ ys) ⊎ NodeClash (tree_pairs (x ∷ xs)) (pairs_above (suc fuel) (y ∷ ys)))
      (sym shorter)
      (layers_binding (length (x ∷ xs)) (x ∷ xs) (y ∷ ys) n (omega arith) (omega arith)
        (sym (root-new_tree x xs) ∙ h ∙ root-new_tree y ys ∙ same_fuel))

layer_pairs-IsNodePair : (xs : List Commitment) → All IsDigest xs → All IsNodePair (layer_pairs xs)
layer_pairs-IsNodePair [] h = tt
layer_pairs-IsNodePair (x ∷ []) h = ((h.0, empty_node-IsDigest), tt)
layer_pairs-IsNodePair (x ∷ y ∷ xs) h = ((h.0, h.1.0), layer_pairs-IsNodePair xs h.1.1)

next_layer-IsDigest : (xs : List Commitment) → All IsDigest (next_layer xs)
unfolding next_layer
next_layer-IsDigest [] = tt
next_layer-IsDigest (x ∷ []) = (combine_nodes-IsDigest x empty_node, tt)
next_layer-IsDigest (x ∷ y ∷ xs) = (combine_nodes-IsDigest x y, next_layer-IsDigest xs)

pub pairs_above-IsNodePair :
    (fuel : ℕ) (xs : List Commitment) → All IsDigest xs → All IsNodePair (pairs_above fuel xs)
pairs_above-IsNodePair zero xs h = tt
pairs_above-IsNodePair (suc fuel) xs h = elim (Bool-cases (ltb 1 (length xs))) [
  | inl e ↦ rw e (
      All-append IsNodePair (layer_pairs xs) (pairs_above fuel (next_layer xs))
        (layer_pairs-IsNodePair xs h)
        (pairs_above-IsNodePair fuel (next_layer xs) (next_layer-IsDigest xs)))
  | inr e ↦ rw e tt
]

-- Two lists of leaves of the same length, digests of 32 bytes, with the same root are the same, or two
-- different pairs of digests that are joined for their trees collide.
pub root_binding :
    (xs ys : List Commitment)
    → All IsDigest xs
    → All IsDigest ys
    → length xs ≡ length ys
    → root (new_tree xs) ≡ root (new_tree ys)
    → (xs ≡ ys) ⊎ NodeCollision (tree_pairs xs) (tree_pairs ys)
root_binding xs ys h k n e = elim (root_clash xs ys n e) [
  | inl same ↦ inl same
  | inr c ↦ inr (
      node_collision (tree_pairs xs) (tree_pairs ys) (pairs_above-IsNodePair (length xs) xs h)
        (pairs_above-IsNodePair (length ys) ys k) c)
]
