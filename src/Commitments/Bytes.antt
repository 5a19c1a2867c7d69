-- ===== src/Commitments/Bytes.antt =====
-- The arrays of bytes that are hashed, and the 32 bytes of a digest.
use fair_cross.Prelude.{
  ℕ, zero, suc, ◌+◌, ◌*◌, ◌/◌, ◌%◌, ◌^◌, ◌<◌, ◌≡◌, refl, sym, subst, List, [], ◌∷◌, ◌++◌, length,
  All, arith,
}
use fair_cross.Domain.Encoding.{append_bytes, append_le32, append_le64, append_le128}
use fair_cross.Commitments.Sha256.{
  Commitment, HashState, Sha256, digest_of, finalize, commit_raw_bytes, combine_nodes, empty_node,
  update, empty_prefix, new_hasher,
}
use fair_cross.Commitments.Sha256.Standard.{big_endian}
use fair_cross.Commitments.Sha256.Compression.{digest_same}

abbrev pub IsBytes : List ℕ → Type 0
IsBytes bytes = All (λ b. b < 256) bytes

pub record IsDigest (c : Commitment) : Type 0 where
  pub size : length c ≡ 32
  pub bytes : IsBytes c

pub All-append :
    {A : Type 0} (P : A → Type 0) (xs ys : List A) → All P xs → All P ys → All P (xs ++ ys)
All-append P [] ys h k = k
All-append P (x ∷ xs) ys h k = (h.0, All-append P xs ys h.1 k)

pub IsBytes-append : (xs ys : List ℕ) → IsBytes xs → IsBytes ys → IsBytes (xs ++ ys)
IsBytes-append xs ys h k = All-append (λ b. b < 256) xs ys h k

append_bytes-IsBytes :
    (n i : ℕ) (buf : List ℕ) (val : ℕ) → IsBytes buf → IsBytes (append_bytes n i buf val)
unfolding append_bytes
append_bytes-IsBytes zero i buf val h = h
append_bytes-IsBytes (suc n) i buf val h =
    append_bytes-IsBytes n (i + 1) (buf ++ val / 2 ^ (i * 8) % 256 ∷ []) val
      (IsBytes-append buf (val / 2 ^ (i * 8) % 256 ∷ []) h (omega arith, tt))

pub append_le32-IsBytes : (buf : List ℕ) (val : ℕ) → IsBytes buf → IsBytes (append_le32 buf val)
unfolding append_le32
append_le32-IsBytes buf val h = append_bytes-IsBytes 4 0 buf val h

pub append_le64-IsBytes : (buf : List ℕ) (val : ℕ) → IsBytes buf → IsBytes (append_le64 buf val)
unfolding append_le64
append_le64-IsBytes buf val h = append_bytes-IsBytes 8 0 buf val h

pub append_le128-IsBytes : (buf : List ℕ) (val : ℕ) → IsBytes buf → IsBytes (append_le128 buf val)
unfolding append_le128
append_le128-IsBytes buf val h = append_bytes-IsBytes 16 0 buf val h

big_endian-IsBytes : (n w : ℕ) → IsBytes (big_endian n w)
big_endian-IsBytes zero w = tt
big_endian-IsBytes (suc n) w = (omega arith, big_endian-IsBytes n w)

digest_of-IsDigest : (s : HashState) → IsDigest (digest_of s)
digest_of-IsDigest s =
    let from_h = big_endian 4 s.h in
    let from_g = big_endian 4 s.g ++ from_h in
    let from_f = big_endian 4 s.f ++ from_g in
    let from_e = big_endian 4 s.e ++ from_f in
    let from_d = big_endian 4 s.d ++ from_e in
    let from_c = big_endian 4 s.c ++ from_d in
    let from_b = big_endian 4 s.b ++ from_c in
    subst IsDigest (sym (digest_same s)) (record {
      size = refl;
      bytes = front s.a from_b (
          front s.b from_c (
            front s.c from_d (
              front s.d from_e (
                front s.e from_f
                  (front s.f from_g (front s.g from_h (big_endian-IsBytes 4 s.h)))))));
    })
  where
    front : (w : ℕ) (after : List ℕ) → IsBytes after → IsBytes (big_endian 4 w ++ after)
    front w after h = IsBytes-append (big_endian 4 w) after (big_endian-IsBytes 4 w) h

finalize-IsDigest : (s : Sha256) → IsDigest (finalize s)
unfolding finalize
finalize-IsDigest s = digest_of-IsDigest _

pub commit_raw_bytes-IsDigest : (message : List ℕ) → IsDigest (commit_raw_bytes message)
unfolding commit_raw_bytes
commit_raw_bytes-IsDigest message = finalize-IsDigest _

pub combine_nodes-IsDigest : (a b : Commitment) → IsDigest (combine_nodes a b)
unfolding combine_nodes
combine_nodes-IsDigest a b = finalize-IsDigest _

pub empty_node-IsDigest : IsDigest empty_node
unfolding empty_node
empty_node-IsDigest = finalize-IsDigest (update empty_prefix new_hasher)
