-- ===== src/Commitments/LedgerRoot/Accounts.antt =====
-- What the root of a ledger binds, and the proof of each of its accounts.
use mathlib.Core.List.{head-eq_of_cons-eq, tail-eq_of_cons-eq}
use fair_cross.Prelude.{
  ℕ, suc, ◌+◌, ◌<◌, ◌≡◌, ◌⊎◌, refl, sym, ◌∙◌, ap, inl, inr, Bool-cases, true, false, ◌==◌, List, [],
  ◌∷◌, map, Option, none, some, length, get_or, All, All-map, All-to_map, ◌++◌, arith,
}
use fair_cross.Prelude.OrdMap.{lookup, Above, IsOrdered}
use fair_cross.Domain.Words.{AccountId, InstrumentId}
use fair_cross.Domain.Account.{AccountState}
use fair_cross.Domain.Ledger.{Ledger}
use fair_cross.Domain.Encoding.{
  append_le64, append_le128, account_tag, encoding_version_v1, SaltedAccountPreimage,
  canonical_encode_account,
}
use fair_cross.Domain.Encoding.Injective.{IsWordAccount, canonical_encode_account_injective}
use fair_cross.Commitments.Bytes.{
  IsBytes, IsDigest, IsBytes-append, append_le64-IsBytes, append_le128-IsBytes,
  commit_raw_bytes-IsDigest,
}
use fair_cross.Commitments.Collision.{
  LeafClash, leaf_collision, NodeCollision, LeafCollision, in_fronts, in_rests,
}
use fair_cross.Commitments.Merkle.{verify, new_tree, root}
use fair_cross.Commitments.Merkle.Inclusion.{generate_proof_verifies}
use fair_cross.Commitments.Merkle.Binding.{tree_pairs, root_binding}
use fair_cross.Commitments.Payloads.Binding.{commit_raw_bytes_binding}
use fair_cross.Commitments.LedgerRoot.{
  AccountInclusionProof, account_preimage, account_leaf, account_leaves, compute_ledger_root,
  index_from, ledger_account_proof,
}

-- The committed statements of a ledger about one instrument.
abbrev pub statements : InstrumentId → Ledger → List SaltedAccountPreimage
statements inst [] = []
statements inst ((id, state) ∷ l) = account_preimage inst id state ∷ statements inst l

-- What is hashed for the accounts of a ledger.
abbrev pub encodings : InstrumentId → Ledger → List (List ℕ)
encodings inst l = map canonical_encode_account (statements inst l)

length-account_leaves :
    (inst : InstrumentId) (l : Ledger) → length (account_leaves inst l) ≡ length l
length-account_leaves inst [] = refl
length-account_leaves inst ((id, state) ∷ l) = omega (arith, length-account_leaves inst l)

account_leaves_binding :
    (inst : InstrumentId) (l m : Ledger)
    → All IsWordAccount (statements inst l)
    → All IsWordAccount (statements inst m)
    → length l ≡ length m
    → account_leaves inst l ≡ account_leaves inst m
    → (statements inst l ≡ statements inst m) ⊎ LeafClash (encodings inst l) (encodings inst m)
account_leaves_binding inst [] [] h k n e = inl refl
account_leaves_binding inst [] (b ∷ m) h k n e = absurd (omega arith)
account_leaves_binding inst (a ∷ l) [] h k n e = absurd (omega arith)
account_leaves_binding inst ((id, state) ∷ l) ((id', state') ∷ m) h k n e =
    let p = account_preimage inst id state in
    let q = account_preimage inst id' state' in
    let p' = canonical_encode_account p in
    let q' = canonical_encode_account q in
    elim (commit_raw_bytes_binding p' q' (head-eq_of_cons-eq e)) [
      | inl b ↦
          elim (account_leaves_binding inst l m h.1 k.1 (omega (arith, n)) (tail-eq_of_cons-eq e)) [
            | inl s ↦ inl (λ i. canonical_encode_account_injective p q h.0 k.0 b i ∷ s i)
            | inr c ↦ inr (in_rests (p' ∷ []) (encodings inst l) (q' ∷ []) (encodings inst m) c)
          ]
      | inr c ↦ inr (in_fronts (p' ∷ []) (encodings inst l) (q' ∷ []) (encodings inst m) c)
    ]

root_of_leaves :
    (inst : InstrumentId) (l : Ledger)
    → compute_ledger_root l inst ≡ root (new_tree (account_leaves inst l))
unfolding compute_ledger_root new_tree root
root_of_leaves inst [] = refl
root_of_leaves inst (e ∷ l) = refl

canonical_encode_account-IsBytes :
    (p : SaltedAccountPreimage) → IsBytes p.salt → IsBytes (canonical_encode_account p)
unfolding canonical_encode_account
canonical_encode_account-IsBytes p h =
    let start = account_tag ++ encoding_version_v1 ∷ [] in
    let tagged : IsBytes start =
      (omega arith, (omega arith, (omega arith, (omega arith, (omega arith, tt))))) in
    let buf_1 = append_le64 start p.account_id in
    let buf_2 = append_le128 buf_1 p.cash in
    let buf_3 = append_le64 buf_2 p.instrument in
    let buf_4 = append_le64 buf_3 p.inventory in
    IsBytes-append buf_4 p.salt
      (append_le64-IsBytes buf_3 p.inventory (
        append_le64-IsBytes buf_2 p.instrument
          (append_le128-IsBytes buf_1 p.cash (append_le64-IsBytes start p.account_id tagged))))
      h

account_leaves-IsDigest : (inst : InstrumentId) (l : Ledger) → All IsDigest (account_leaves inst l)
account_leaves-IsDigest inst [] = tt
account_leaves-IsDigest inst ((id, state) ∷ l) = (
  commit_raw_bytes-IsDigest (canonical_encode_account (account_preimage inst id state)),
  account_leaves-IsDigest inst l,
)

-- A statement whose numbers fit their types and whose salt is of bytes.
abbrev pub IsSaltedAccount : SaltedAccountPreimage → Type 0
IsSaltedAccount p = IsWordAccount p × IsBytes p.salt

-- Two ledgers of as many accounts, whose numbers fit their types and whose salts are of bytes, with the
-- same root for an instrument, agree on the ids of all accounts, their cash, their holdings of the
-- instrument and their salts; or two different pairs of digests joined for their trees collide, or two
-- different encodings of their accounts do.
pub compute_ledger_root_binding :
    (inst : InstrumentId) (l m : Ledger)
    → All IsSaltedAccount (statements inst l)
    → All IsSaltedAccount (statements inst m)
    → length l ≡ length m
    → compute_ledger_root l inst ≡ compute_ledger_root m inst
    → (statements inst l ≡ statements inst m)
      ⊎ (NodeCollision (tree_pairs (account_leaves inst l)) (tree_pairs (account_leaves inst m))
          ⊎ LeafCollision (encodings inst l) (encodings inst m))
compute_ledger_root_binding inst l m h k n e =
    elim (root_binding (account_leaves inst l) (account_leaves inst m)
      (account_leaves-IsDigest inst l) (account_leaves-IsDigest inst m)
      (omega (arith, n, length-account_leaves inst l, length-account_leaves inst m))
      (sym (root_of_leaves inst l) ∙ e ∙ root_of_leaves inst m)) [
        | inl s ↦ elim (account_leaves_binding inst l m (words l h) (words m k) n s) [
          | inl r ↦ inl r
          | inr c ↦ inr (
              inr
                (leaf_collision (encodings inst l) (encodings inst m) (salted l h) (salted m k) c))
        ]
        | inr c ↦ inr (inl c)
      ]
  where
    words :
        (l : Ledger)
        → All IsSaltedAccount (statements inst l)
        → All IsWordAccount (statements inst l)
    words l h = All-map (λ p q. q.0) (statements inst l) h

    salted : (l : Ledger) → All IsSaltedAccount (statements inst l) → All IsBytes (encodings inst l)
    salted l h =
        All-to_map IsBytes canonical_encode_account (statements inst l)
          (All-map (λ p q. canonical_encode_account-IsBytes p q.1) (statements inst l) h)

-- Past the account the index stays.
index_from-Above :
    (id k position : ℕ) (index : Option ℕ) (l : Ledger)
    → Above k l
    → id ≡ k
    → index_from id position index l ≡ index
unfolding index_from
index_from-Above id k position index [] h e = refl
index_from-Above id k position index ((j, state) ∷ l) h e =
    let other : (j == id) ≡ false = ground arith in
    rw other (index_from-Above id k (suc position) index l h.1 e)

-- The index of an account is that of its leaf.
index_found :
    (inst : InstrumentId) (id position : ℕ) (index : Option ℕ) (acc : AccountState) (l : Ledger)
    → IsOrdered l
    → lookup id l ≡ some acc
    → (j : ℕ) × (j < length l)
      × (index_from id position index l ≡ some (position + j))
      × (get_or (account_leaves inst l) j [] ≡ account_leaf inst id acc)
unfolding index_from lookup
index_found inst id position index acc [] o f = cc
index_found inst id position index acc ((k, state) ∷ l) o f = elim (Bool-cases (id == k)) [
  | inl e ↦ (
    0,
    omega arith,
    (let same : (k == id) ≡ true = ground arith in
        let kept : position ≡ position + 0 = omega arith in
        rw (same, ← kept)
          (index_from-Above id k (suc position) (some position) l o.0 (ground arith))),
    (let holds : state ≡ acc = ground arith in
        let named : k ≡ id = ground arith in rw (holds, named) refl),
  )
  | inr e ↦
      let (j, below, found, leaf) =
        index_found inst id (suc position) index acc l o.1 (rw e at f) in
      let other : (k == id) ≡ false = ground arith in
      (
        suc j,
        omega (arith, below),
        rw other (found ∙ ap {A = ℕ} {B = Option ℕ} some (omega arith)),
        leaf,
      )
]

-- Each account of an ordered ledger has a proof, which verifies its leaf, made of its id, cash,
-- holding and salt, against the root of the ledger.
pub ledger_account_proof_verifies :
    (l : Ledger) (inst : InstrumentId) (id : AccountId) (acc : AccountState)
    → IsOrdered l
    → lookup id l ≡ some acc
    → (r : AccountInclusionProof) × (ledger_account_proof l inst id ≡ some r)
      × (r.leaf ≡ account_leaf inst id acc)
      × (verify r.proof (compute_ledger_root l inst) r.leaf ≡ true)
unfolding ledger_account_proof
ledger_account_proof_verifies l inst id acc o f =
    let (j, below, found, leaf) = index_found inst id 0 none acc l o f in
    let front : 0 + j ≡ j = omega arith in
    let (proof, made, at, passes) =
      generate_proof_verifies (account_leaves inst l) j
        (omega (arith, below, length-account_leaves inst l)) in
    (
      record { leaf = get_or (account_leaves inst l) j []; proof = proof },
      rw (found, front, made) refl,
      leaf,
      rw (root_of_leaves inst l) passes,
    )
