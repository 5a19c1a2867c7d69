-- ===== src/Commitments/LedgerRoot.antt =====
-- cpp/include/faircross/commitments/ledger_commitment.hpp: the salts of accounts, the root of a ledger
-- and the proof of one account.
pub mod Accounts
use fair_cross.Prelude.{
  ℕ, suc, ◌+◌, ◌==◌, if◌then◌else◌, List, [], ◌∷◌, ◌++◌, Option, none, some, get_or,
}
use fair_cross.Domain.Words.{AccountId, InstrumentId}
use fair_cross.Domain.Account.{AccountState, inventory_of, set_commitment_salt}
use fair_cross.Domain.Ledger.{Ledger}
use fair_cross.Domain.Encoding.{SaltedAccountPreimage, append_le64, canonical_encode_account}
use fair_cross.Commitments.Sha256.{Commitment, commit_raw_bytes, empty_node}
use fair_cross.Commitments.Merkle.{MerkleProof, MerkleTree, new_tree, root, generate_proof}

-- "FC_ACCT_SALT_V1".
abbrev pub account_salt_tag : List ℕ
account_salt_tag =
    b'F' ∷ b'C' ∷ b'_' ∷ b'A' ∷ b'C' ∷ b'C' ∷ b'T' ∷ b'_' ∷ b'S' ∷ b'A' ∷ b'L' ∷ b'T' ∷ b'_' ∷ b'V'
    ∷ b'1' ∷ []

unfoldable pub derive_account_salt : List ℕ → AccountId → List ℕ
derive_account_salt venue_secret account_id =
    commit_raw_bytes (append_le64 (account_salt_tag ++ venue_secret) account_id)

unfoldable pub blind_ledger : List ℕ → Ledger → Ledger
unfolding derive_account_salt set_commitment_salt
blind_ledger venue_secret [] = []
blind_ledger venue_secret ((id, acc) ∷ l) =
    (id, set_commitment_salt (derive_account_salt venue_secret id) acc)
    ∷ blind_ledger venue_secret l

abbrev pub account_preimage : InstrumentId → AccountId → AccountState → SaltedAccountPreimage
account_preimage instrument account_id state = record {
  account_id = account_id;
  cash = state.cash;
  instrument = instrument;
  inventory = inventory_of instrument state;
  salt = state.commitment_salt;
}

abbrev pub account_leaf : InstrumentId → AccountId → AccountState → Commitment
account_leaf instrument account_id state =
    commit_raw_bytes (canonical_encode_account (account_preimage instrument account_id state))

abbrev pub account_leaves : InstrumentId → Ledger → List Commitment
account_leaves instrument [] = []
account_leaves instrument ((id, state) ∷ l) =
    account_leaf instrument id state ∷ account_leaves instrument l

unfoldable pub compute_ledger_root : Ledger → InstrumentId → Commitment
compute_ledger_root [] instrument = empty_node
compute_ledger_root (e ∷ l) instrument = root (new_tree (account_leaves instrument (e ∷ l)))

pub record AccountInclusionProof : Type 0 where
  pub leaf : Commitment
  pub proof : MerkleProof

-- The index that the loop of `ledger_account_proof` leaves.
unfoldable pub index_from : AccountId → ℕ → Option ℕ → Ledger → Option ℕ
index_from account_id position index [] = index
index_from account_id position index ((id, state) ∷ l) =
    index_from account_id (suc position) (if id == account_id then some position else index) l

abbrev pub inclusion_of : Commitment → Option MerkleProof → Option AccountInclusionProof
inclusion_of leaf none = none
inclusion_of leaf (some proof) = some (record { leaf = leaf; proof = proof })

abbrev pub proof_at : List Commitment → Option ℕ → Option AccountInclusionProof
proof_at leaves none = none
proof_at leaves (some index) =
    inclusion_of (get_or leaves index []) (generate_proof (new_tree leaves) index)

unfoldable pub ledger_account_proof :
    Ledger → InstrumentId → AccountId → Option AccountInclusionProof
unfolding index_from
ledger_account_proof ledger instrument account_id =
    proof_at (account_leaves instrument ledger) (index_from account_id 0 none ledger)
