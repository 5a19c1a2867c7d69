-- ===== src/Commitments/Merkle.antt =====
-- cpp/include/faircross/commitments/merkle.hpp and cpp/src/commitments/merkle.cpp: Merkle trees and
-- inclusion proofs.
pub mod Inclusion
pub mod Binding
use fair_cross.Prelude.{
  ℕ, zero, suc, ◌+◌, ◌-◌, ◌/◌, ◌%◌, Bool, true, false, ◌&&◌, ltb, leb, ◌==◌, if◌then◌else◌, List,
  [], ◌∷◌, Option, none, some, length, get_or, last_or,
}
use fair_cross.Commitments.Sha256.{Commitment, combine_nodes, empty_node}

pub data StepSide : Type 0 where
  left right : StepSide

pub record MerkleStep : Type 0 where
  pub side : StepSide
  pub sibling : Commitment

pub record MerkleProof : Type 0 where
  pub leaf_index : ℕ
  pub path : List MerkleStep

-- One round of the loop of `verify`.
unfoldable pub joined : StepSide → Commitment → Commitment → Commitment
joined left sibling current = combine_nodes sibling current
joined right sibling current = combine_nodes current sibling

unfoldable pub climbed : List MerkleStep → Commitment → Commitment
unfolding joined
climbed [] current = current
climbed (step ∷ path) current = climbed path (joined step.side step.sibling current)

-- `==` of two arrays.
unfoldable pub same_bytes : Commitment → Commitment → Bool
same_bytes [] [] = true
same_bytes [] (y ∷ ys) = false
same_bytes (x ∷ xs) [] = false
same_bytes (x ∷ xs) (y ∷ ys) = x == y && same_bytes xs ys

unfoldable pub verify : MerkleProof → Commitment → Commitment → Bool
unfolding climbed same_bytes
verify proof expected_root leaf = same_bytes (climbed proof.path leaf) expected_root

pub record MerkleTree : Type 0 where
  pub leaves : List Commitment
  pub layers : List (List Commitment)

unfoldable pub next_layer : List Commitment → List Commitment
next_layer [] = []
next_layer (x ∷ []) = combine_nodes x empty_node ∷ []
next_layer (x ∷ y ∷ layer) = combine_nodes x y ∷ next_layer layer

-- The layers above a layer, one for each round of the loop. A round shortens a layer, so that as
-- many rounds as it has nodes are enough.
unfoldable pub layers_above : ℕ → List Commitment → List (List Commitment)
unfolding next_layer
layers_above zero current_layer = []
layers_above (suc fuel) current_layer =
    let above = layers_above fuel (next_layer current_layer) in
    if ltb 1 (length current_layer) then next_layer current_layer ∷ above else []

-- The constructor.
unfoldable pub new_tree : List Commitment → MerkleTree
unfolding layers_above
new_tree [] = record { leaves = []; layers = [] }
new_tree (leaf ∷ leaves) = record {
  leaves = leaf ∷ leaves;
  layers = (leaf ∷ leaves) ∷ layers_above (length (leaf ∷ leaves)) (leaf ∷ leaves);
}

-- `layers_.back()[0]`, where there are leaves.
unfoldable pub root : MerkleTree → Commitment
root tree = if length tree.leaves == 0 then empty_node else get_or (last_or tree.layers []) 0 []

unfoldable pub step_at : List Commitment → ℕ → MerkleStep
step_at layer idx =
    if idx % 2 == 1 then record { side = left; sibling = get_or layer (idx - 1) [] } else record {
      side = right;
      sibling = if ltb (idx + 1) (length layer) then get_or layer (idx + 1) [] else empty_node;
    }

-- The loop of `generate_proof`, over all layers but the last.
unfoldable pub path_from : List (List Commitment) → ℕ → List MerkleStep
unfolding step_at
path_from [] idx = []
path_from (layer ∷ []) idx = []
path_from (layer ∷ above ∷ layers) idx = step_at layer idx ∷ path_from (above ∷ layers) (idx / 2)

unfoldable pub generate_proof : MerkleTree → ℕ → Option MerkleProof
unfolding path_from
generate_proof tree leaf_index =
    if leb (length tree.leaves) leaf_index
    then none
    else some (record { leaf_index = leaf_index; path = path_from tree.layers leaf_index })
