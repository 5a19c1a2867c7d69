-- ===== src/Tests/Commitments.antt =====
-- A digest of the standard, and the theorems on commitments at small trees, ledgers and orders.
use fair_cross.Prelude.{
  ℕ, zero, suc, ◌<◌, sym, subst, ◌≡◌, ◌⊎◌, refl, true, List, [], ◌∷◌, ◌++◌, some, replicate, All,
  arith,
}
use fair_cross.Prelude.OrdMap.{lookup}
use fair_cross.Domain.Order.{SaltedOrderPreimage, buy}
use fair_cross.Domain.Account.{inventory_of}
use fair_cross.Domain.Encoding.Injective.{IsWordPreimage, IsWordSnapshot}
use fair_cross.Commitments.Sha256.{
  Commitment, hash, commit_raw_bytes, combine_nodes, empty_node, leaf_prefix, node_prefix,
  empty_prefix,
}
use fair_cross.Commitments.Sha256.Standard.{standard_digest}
use fair_cross.Commitments.Sha256.Padding.{scheme-standard_digest}
use fair_cross.Commitments.Bytes.{IsBytes, IsDigest, combine_nodes-IsDigest}
use fair_cross.Commitments.Collision.{NodeCollision, LeafCollision}
use fair_cross.Domain.Encoding.{canonical_encode_order}
use fair_cross.Commitments.Merkle.{
  MerkleProof, left, layers_above, next_layer, new_tree, root, generate_proof, verify, climbed,
  joined,
}
use fair_cross.Commitments.Merkle.Inclusion.{
  root-new_tree, generate_proof_verifies, same_bytes_self,
}
use fair_cross.Commitments.Merkle.Binding.{tree_pairs, root_binding}
use fair_cross.Commitments.Payloads.{BatchHeader, canonical_encode}
use fair_cross.Commitments.Payloads.Header.{IsWordHeader, compute_batch_commitment_binding}
use fair_cross.Commitments.Payloads.Binding.{
  commit_order_binding, published, published_bytes, compute_oracle_snapshot_commitment_binding,
}
use fair_cross.Commitments.LedgerRoot.{
  AccountInclusionProof, account_leaf, account_leaves, compute_ledger_root, ledger_account_proof,
}
use fair_cross.Commitments.LedgerRoot.Accounts.{
  statements, encodings, IsSaltedAccount, compute_ledger_root_binding,
  ledger_account_proof_verifies,
}
use fair_cross.Tests.{limit_order, account, ledger, snapshot, policy, ledger-IsValidLedger}

-- The digest of "abc" in FIPS 180-4.
digest_abc :
    hash (b'a' ∷ b'b' ∷ b'c' ∷ [])
    ≡ 0xba ∷ 0x78 ∷ 0x16 ∷ 0xbf ∷ 0x8f ∷ 0x01 ∷ 0xcf ∷ 0xea ∷ 0x41 ∷ 0x41 ∷ 0x40 ∷ 0xde ∷ 0x5d
      ∷ 0xae ∷ 0x22 ∷ 0x23 ∷ 0xb0 ∷ 0x03 ∷ 0x61 ∷ 0xa3 ∷ 0x96 ∷ 0x17 ∷ 0x7a ∷ 0x9c ∷ 0xb4 ∷ 0x10
      ∷ 0xff ∷ 0x61 ∷ 0xf2 ∷ 0x00 ∷ 0x15 ∷ 0xad ∷ []
unfolding hash fair_cross.Commitments.Sha256.transform
digest_abc = refl

abbrev leaf_1 : Commitment
leaf_1 = replicate 32 1

abbrev leaf_2 : Commitment
leaf_2 = replicate 32 2

abbrev leaf_3 : Commitment
leaf_3 = replicate 32 3

abbrev three_leaves : List Commitment
three_leaves = leaf_1 ∷ leaf_2 ∷ leaf_3 ∷ []

pub repeated-IsBytes : (n b : ℕ) → b < 256 → IsBytes (replicate n b)
repeated-IsBytes zero b h = tt
repeated-IsBytes (suc n) b h = (h, repeated-IsBytes n b h)

three_leaves-IsDigest : All IsDigest three_leaves
three_leaves-IsDigest = (
  record { size = refl; bytes = repeated-IsBytes 32 1 (omega arith) },
  (
    record { size = refl; bytes = repeated-IsBytes 32 2 (omega arith) },
    (record { size = refl; bytes = repeated-IsBytes 32 3 (omega arith) }, tt),
  ),
)

scheme-standard_digest_example :
    (commit_raw_bytes (1 ∷ 2 ∷ []) ≡ standard_digest (leaf_prefix ++ 1 ∷ 2 ∷ []))
    × (combine_nodes leaf_1 leaf_2 ≡ standard_digest (node_prefix ++ (leaf_1 ++ leaf_2)))
    × (empty_node ≡ standard_digest empty_prefix)
scheme-standard_digest_example =
    scheme-standard_digest (1 ∷ 2 ∷ []) leaf_1 leaf_2 (omega arith) (omega arith)

generate_proof_verifies_example :
    (proof : MerkleProof) × (generate_proof (new_tree three_leaves) 2 ≡ some proof)
    × (proof.leaf_index ≡ 2)
    × (verify proof (root (new_tree three_leaves)) leaf_3 ≡ true)
generate_proof_verifies_example = generate_proof_verifies three_leaves 2 (omega arith)

root_binding_example :
    (three_leaves ≡ three_leaves)
    ⊎ NodeCollision (tree_pairs three_leaves) (tree_pairs three_leaves)
root_binding_example =
    root_binding three_leaves three_leaves three_leaves-IsDigest three_leaves-IsDigest refl refl

abbrev short_proof : MerkleProof
short_proof = record { leaf_index = 1; path = record { side = left; sibling = leaf_1 } ∷ [] }

short_proof_verifies : verify short_proof (combine_nodes leaf_1 leaf_2) leaf_2 ≡ true
unfolding verify climbed joined
short_proof_verifies = same_bytes_self (combine_nodes leaf_1 leaf_2)

abbrev salted : SaltedOrderPreimage
salted = record { order = limit_order 1 1 buy 102 10; nonce = replicate 32 9 }

salted-IsWordPreimage : IsWordPreimage salted
salted-IsWordPreimage = record {
  proper_side = refl;
  id_fits = omega arith;
  account_fits = omega arith;
  instrument_fits = omega arith;
  price_fits = omega arith;
  qty_fits = omega arith;
  seq_fits = omega arith;
}

commit_order_binding_example :
    (salted ≡ salted)
    ⊎ LeafCollision (canonical_encode_order salted ∷ []) (canonical_encode_order salted ∷ [])
commit_order_binding_example =
    commit_order_binding salted salted salted-IsWordPreimage salted-IsWordPreimage
      (repeated-IsBytes 32 9 (omega arith)) (repeated-IsBytes 32 9 (omega arith)) refl

abbrev header : BatchHeader
header = record {
  semantic_version = 1;
  batch_id = 1;
  instrument_id = 7;
  cutoff_timestamp = 1200;
  order_count = 3;
  orders_merkle_root = root (new_tree three_leaves);
}

header_root-IsBytes : IsBytes header.orders_merkle_root
unfolding layers_above next_layer
header_root-IsBytes =
    subst IsBytes (sym (root-new_tree leaf_1 (leaf_2 ∷ leaf_3 ∷ [])))
      (combine_nodes-IsDigest (combine_nodes leaf_1 leaf_2) (combine_nodes leaf_3 empty_node)).bytes

header-IsWordHeader : IsWordHeader header
header-IsWordHeader = record {
  version_fits = omega arith;
  batch_fits = omega arith;
  instrument_fits = omega arith;
  cutoff_fits = omega arith;
  count_fits = omega arith;
}

compute_batch_commitment_binding_example :
    (header ≡ header) ⊎ LeafCollision (canonical_encode header ∷ []) (canonical_encode header ∷ [])
compute_batch_commitment_binding_example =
    compute_batch_commitment_binding header header header-IsWordHeader header-IsWordHeader
      header_root-IsBytes header_root-IsBytes refl

snapshot-IsWordSnapshot : IsWordSnapshot (record { snapshot = snapshot; policy = policy })
snapshot-IsWordSnapshot = record {
  oracle_fits = omega arith;
  instrument_fits = omega arith;
  price_fits = omega arith;
  timestamp_fits = omega arith;
  sequence_fits = omega arith;
  staleness_fits = omega arith;
  deviation_fits = omega arith;
}

compute_oracle_snapshot_commitment_binding_example :
    (published (some snapshot) (some policy) ≡ published (some snapshot) (some policy))
    ⊎ LeafCollision
        (published_bytes (published (some snapshot) (some policy)) ∷ [])
        (published_bytes (published (some snapshot) (some policy)) ∷ [])
compute_oracle_snapshot_commitment_binding_example =
    compute_oracle_snapshot_commitment_binding (some snapshot) (some snapshot) (some policy)
      (some policy) snapshot-IsWordSnapshot snapshot-IsWordSnapshot refl

ledger-IsSaltedAccount : All IsSaltedAccount (statements 7 ledger)
unfolding inventory_of lookup
ledger-IsSaltedAccount = (
  (
    record {
      id_fits = omega arith;
      cash_fits = omega arith;
      instrument_fits = omega arith;
      inventory_fits = omega arith;
    },
    repeated-IsBytes 32 0 (omega arith),
  ),
  (
    (
      record {
        id_fits = omega arith;
        cash_fits = omega arith;
        instrument_fits = omega arith;
        inventory_fits = omega arith;
      },
      repeated-IsBytes 32 0 (omega arith),
    ),
    (
      (
        record {
          id_fits = omega arith;
          cash_fits = omega arith;
          instrument_fits = omega arith;
          inventory_fits = omega arith;
        },
        repeated-IsBytes 32 0 (omega arith),
      ),
      tt,
    ),
  ),
)

compute_ledger_root_binding_example :
    (statements 7 ledger ≡ statements 7 ledger)
    ⊎ (NodeCollision (tree_pairs (account_leaves 7 ledger)) (tree_pairs (account_leaves 7 ledger))
        ⊎ LeafCollision (encodings 7 ledger) (encodings 7 ledger))
compute_ledger_root_binding_example =
    compute_ledger_root_binding 7 ledger ledger ledger-IsSaltedAccount ledger-IsSaltedAccount refl
      refl

second_account : lookup 2 ledger ≡ some (account 2 0 20)
unfolding lookup
second_account = refl

ledger_account_proof_verifies_example :
    (r : AccountInclusionProof) × (ledger_account_proof ledger 7 2 ≡ some r)
    × (r.leaf ≡ account_leaf 7 2 (account 2 0 20))
    × (verify r.proof (compute_ledger_root ledger 7) r.leaf ≡ true)
ledger_account_proof_verifies_example =
    ledger_account_proof_verifies ledger 7 2 (account 2 0 20) ledger-IsValidLedger.ordered
      second_account
