-- ===== src/Commitments/Merkle/Inclusion.antt =====
-- cpp/src/commitments/merkle.cpp: the proofs of leaves and the root.
use fair_cross.Prelude.{
  ℕ, zero, suc, ◌+◌, ◌-◌, ◌/◌, ◌%◌, ◌≤◌, ◌<◌, ◌≡◌, refl, Bool-cases, inl, inr, true, false, ltb,
  ◌==◌, List, [], ◌∷◌, some, length, get_or, last_or, arith,
}
use fair_cross.Prelude.OrdMap.{==_self}
use fair_cross.Commitments.Sha256.{Commitment}
use fair_cross.Commitments.Merkle.{
  MerkleProof, joined, climbed, same_bytes, verify, next_layer, layers_above, new_tree, root,
  step_at, path_from, generate_proof,
}

pub length-next_layer :
    (layer : List Commitment) → length (next_layer layer) ≡ (length layer + 1) / 2
unfolding next_layer
length-next_layer [] = omega arith
length-next_layer (x ∷ []) = omega arith
length-next_layer (x ∷ y ∷ layer) = omega (arith, length-next_layer layer)

-- Two nodes further on, a step is the same one of the rest.
step_at_two :
    (x y : Commitment) (layer : List Commitment) (i : ℕ)
    → step_at (x ∷ y ∷ layer) (suc (suc i)) ≡ step_at layer i
unfolding step_at
step_at_two x y layer zero =
    let same : ltb 3 (suc (suc (length layer))) ≡ ltb 1 (length layer) = ground arith in
    rw same refl
step_at_two x y layer (suc i) =
    let parity : (suc (suc (suc i)) % 2 == 1) ≡ (suc i % 2 == 1) = ground arith in
    let inside : ltb (suc (suc (suc i)) + 1) (suc (suc (length layer)))
        ≡ ltb (suc i + 1) (length layer) =
      ground arith in
    let before : (suc (suc (suc i)) - 1 ≡ suc (suc i)) × (suc i - 1 ≡ i) = omega arith in
    let after : suc (suc (suc i)) + 1 ≡ suc (suc (suc i + 1)) = omega arith in
    rw (parity, inside, after, before.0, before.1) refl

-- A step from a node leads to its parent.
next_layer-step_at :
    (layer : List Commitment) (i : ℕ)
    → i < length layer
    → joined (step_at layer i).side (step_at layer i).sibling (get_or layer i [])
      ≡ get_or (next_layer layer) (i / 2) []
unfolding next_layer step_at joined
next_layer-step_at [] i h = absurd (omega arith)
next_layer-step_at (x ∷ []) zero h = refl
next_layer-step_at (x ∷ []) (suc i) h = absurd (omega arith)
next_layer-step_at (x ∷ y ∷ layer) zero h =
    let two : ltb 1 (suc (suc (length layer))) ≡ true = ground arith in rw two refl
next_layer-step_at (x ∷ y ∷ layer) (suc zero) h = refl
next_layer-step_at (x ∷ y ∷ layer) (suc (suc i)) h =
    let half : suc (suc i) / 2 ≡ suc (i / 2) = omega arith in
    rw (step_at_two x y layer i, half) (next_layer-step_at layer i (omega arith))

pub same_bytes_self : (c : Commitment) → same_bytes c c ≡ true
unfolding same_bytes
same_bytes_self [] = refl
same_bytes_self (x ∷ xs) = rw (==_self x, same_bytes_self xs) refl

-- The path from a node of a layer leads to the one node of the last layer.
climbed-path_from :
    (fuel : ℕ) (layer : List Commitment) (i : ℕ)
    → i < length layer
    → length layer ≤ suc fuel
    → climbed (path_from (layer ∷ layers_above fuel layer) i) (get_or layer i [])
      ≡ get_or (last_or (layer ∷ layers_above fuel layer) []) 0 []
unfolding layers_above path_from climbed
climbed-path_from zero layer i h enough = let only : i ≡ 0 = omega arith in rw only refl
climbed-path_from (suc fuel) layer i h enough = elim (Bool-cases (ltb 1 (length layer))) [
  | inl e ↦
      rw (e, next_layer-step_at layer i h)
        (climbed-path_from fuel (next_layer layer) (i / 2) (ground (arith, length-next_layer layer))
          (ground (arith, length-next_layer layer)))
  | inr e ↦ let only : i ≡ 0 = ground arith in rw (e, only) refl
]

pub root-new_tree :
    (leaf : Commitment) (leaves : List Commitment)
    → root (new_tree (leaf ∷ leaves))
      ≡ get_or
          (last_or ((leaf ∷ leaves) ∷ layers_above (length (leaf ∷ leaves)) (leaf ∷ leaves)) [])
          0
          []
unfolding root new_tree
root-new_tree leaf leaves =
    let some_leaf : (suc (length leaves) == 0) ≡ false = ground arith in rw some_leaf refl

-- Every leaf of a tree has a proof, which is of its index and verifies it against the root.
pub generate_proof_verifies :
    (leaves : List Commitment) (i : ℕ)
    → i < length leaves
    → (proof : MerkleProof) × (generate_proof (new_tree leaves) i ≡ some proof)
      × (proof.leaf_index ≡ i)
      × (verify proof (root (new_tree leaves)) (get_or leaves i []) ≡ true)
unfolding generate_proof new_tree verify
generate_proof_verifies [] i h = absurd (omega arith)
generate_proof_verifies (leaf ∷ leaves) i h =
    let layers = (leaf ∷ leaves) ∷ layers_above (length (leaf ∷ leaves)) (leaf ∷ leaves) in
    (
      record { leaf_index = i; path = path_from layers i },
      ground arith,
      refl,
      rw
          (
            root-new_tree leaf leaves,
            climbed-path_from (length (leaf ∷ leaves)) (leaf ∷ leaves) i h (omega arith),
          )
          (same_bytes_self (get_or (last_or layers []) 0 [])),
    )
