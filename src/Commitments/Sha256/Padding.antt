-- ===== src/Commitments/Sha256/Padding.antt =====
-- cpp/src/commitments/sha256.cpp: `update` and `finalize` against the standard, which pads the whole
-- message and compresses it block by block.
use mathlib.Core.List.{append-nil, append_assoc}
use fair_cross.Prelude.{
  Bool-cases, inl, inr, ℕ, zero, suc, ◌+◌, ◌-◌, ◌*◌, ◌/◌, ◌%◌, ◌≤◌, ◌<◌, ◌≡◌, refl, sym, ◌∙◌, ap,
  subst, ltb, ◌==◌, List, [], ◌∷◌, ◌++◌, length, replicate, take, drop, length-append, take-append,
  drop-append, arith,
}
use fair_cross.Domain.Words.{u64_mod}
use fair_cross.Commitments.Sha256.Standard.{
  initial_hash, big_endian, zeros_for, padded, next_hash, hash_blocks, digest_bytes,
  standard_digest,
}
use fair_cross.Commitments.Sha256.Compression.{
  initial_same, transform_same, digest_same, length_same,
}
use fair_cross.Commitments.Sha256.{
  Commitment, HashState, initial_state, transform, Sha256, new_hasher, absorb, update, length_bytes,
  digest_of, finalize, hash, leaf_prefix, node_prefix, commit_raw_bytes, combine_nodes, empty_node,
  empty_prefix,
}

-- `n` blocks of 64 bytes, put through `transform` one after the other.
unfoldable pub compress_blocks : ℕ → HashState → List ℕ → HashState
compress_blocks zero s bytes = s
compress_blocks (suc n) s bytes = compress_blocks n (transform s (take 64 bytes)) (drop 64 bytes)

-- The mark, `k` zeros, and a length in bits.
abbrev pub padding : ℕ → ℕ → List ℕ
padding k bits = 0x80 ∷ (replicate k 0 ++ length_bytes bits)

pub length-replicate : (n x : ℕ) → length (replicate n x) ≡ n
length-replicate zero x = refl
length-replicate (suc n) x = omega (arith, length-replicate n x)

replicate-plus : (m n x : ℕ) → replicate (m + n) x ≡ replicate m x ++ replicate n x
replicate-plus zero n x = let same : 0 + n ≡ n = omega arith in rw same refl
replicate-plus (suc m) n x =
    let same : suc m + n ≡ suc (m + n) = omega arith in rw (same, replicate-plus m n x) refl

-- A front of 64 bytes is one block.
one_block :
    (n : ℕ) (s : HashState) (block rest : List ℕ)
    → length block ≡ 64
    → compress_blocks (suc n) s (block ++ rest) ≡ compress_blocks n (transform s block) rest
unfolding compress_blocks
one_block n s block rest h =
    let taken : take 64 (block ++ rest) ≡ block =
      subst (λ i. take i (block ++ rest) ≡ block) h (take-append block rest) in
    let dropped : drop 64 (block ++ rest) ≡ rest =
      subst (λ i. drop i (block ++ rest) ≡ rest) h (drop-append block rest) in
    rw (taken, dropped) refl

last_block :
    (s : HashState) (block : List ℕ)
    → length block ≡ 64
    → compress_blocks 1 s block ≡ transform s block
unfolding compress_blocks
last_block s block h =
    ap {A = List ℕ} {B = HashState} (compress_blocks 1 s) (sym (append-nil block))
    ∙ one_block 0 s block [] h

length-length_bytes : (n : ℕ) → length (length_bytes n) ≡ 8
unfolding length_bytes
length-length_bytes n = refl

-- What stands between the message and its length, and both with what is before them.
length-marked :
    (buffer after : List ℕ) (k : ℕ)
    → length ((buffer ++ 0x80 ∷ replicate k 0) ++ after) ≡ length buffer + 1 + k + length after
length-marked buffer after k = omega (
  arith,
  length-append (buffer ++ 0x80 ∷ replicate k 0) after,
  length-append buffer (0x80 ∷ replicate k 0),
  length-replicate k 0,
)

-- The two shapes of the end.
short_end :
    (s : HashState) (buffer : List ℕ) (k bits : ℕ)
    → length buffer + 9 + k ≡ 64
    → transform s ((buffer ++ 0x80 ∷ replicate k 0) ++ length_bytes bits)
      ≡ compress_blocks 1 s (buffer ++ padding k bits)
short_end s buffer k bits h =
    rw (← append_assoc buffer (0x80 ∷ replicate k 0) (length_bytes bits)) (
      sym (
        last_block s _
          (omega (arith, h, length-marked buffer (length_bytes bits) k, length-length_bytes bits))))

long_end :
    (s : HashState) (buffer : List ℕ) (j bits : ℕ)
    → length buffer + 1 + j ≡ 64
    → transform (transform s (buffer ++ 0x80 ∷ replicate j 0)) (replicate 56 0 ++ length_bytes bits)
      ≡ compress_blocks 2 s (buffer ++ padding (j + 56) bits)
long_end s buffer j bits h =
    let block = buffer ++ 0x80 ∷ replicate j 0 in
    let rest = replicate 56 0 ++ length_bytes bits in
    let split : buffer ++ padding (j + 56) bits ≡ block ++ rest =
      rw (replicate-plus j 56 0, append_assoc (replicate j 0) (replicate 56 0) (length_bytes bits))
        (sym (append_assoc buffer (0x80 ∷ replicate j 0) rest)) in
    rw
      (
        split,
        one_block 1 s block rest
            (omega (arith, h, length-append buffer (0x80 ∷ replicate j 0), length-replicate j 0)),
      )
      (sym (
        last_block (transform s block) rest (
          omega (
            arith,
            length-append (replicate 56 0) (length_bytes bits),
            length-replicate 56 0,
            length-length_bytes bits,
          ))))

-- The end of the message: one block, or two where the length does not fit in the first.
finalize_padded :
    (n k bits : ℕ) (s : Sha256)
    → length s.buffer < 64
    → k < 64
    → length s.buffer + 9 + k ≡ n * 64
    → s.bit_len + length s.buffer * 8 ≡ bits
    → bits < u64_mod
    → finalize s ≡ digest_of (compress_blocks n s.state (s.buffer ++ padding k bits))
unfolding finalize
finalize_padded n k bits s small few whole total fits =
    let bits_kept : (s.bit_len + length s.buffer * 8) % u64_mod ≡ bits = omega arith in
    elim (Bool-cases (ltb (length s.buffer) 56)) [
      | inl e ↦
          let fit : length s.buffer < 56 = ground arith in
          let one : n ≡ 1 = omega arith in
          let zeros : 55 - length s.buffer ≡ k = omega arith in
          rw (e, bits_kept, zeros, one)
            (ap {A = HashState} {B = Commitment} digest_of
              (short_end s.state s.buffer k bits (omega arith)))
      | inr e ↦
          let over : 56 ≤ length s.buffer = ground arith in
          let two : n ≡ 2 = omega arith in
          let zeros : k ≡ 63 - length s.buffer + 56 = omega arith in
          rw (e, bits_kept, zeros, two)
            (ap {A = HashState} {B = Commitment} digest_of
              (long_end s.state s.buffer (63 - length s.buffer) bits (omega arith)))
    ]

-- A hasher with part of a block, and the rest of the message: what it makes of them is the digest of
-- the blocks that they form with the padding.
update_padded :
    (n k bits : ℕ) (message : List ℕ) (s : Sha256)
    → length s.buffer < 64
    → k < 64
    → length s.buffer + length message + 9 + k ≡ n * 64
    → s.bit_len + (length s.buffer + length message) * 8 ≡ bits
    → bits < u64_mod
    → finalize (update message s)
      ≡ digest_of (compress_blocks n s.state (s.buffer ++ (message ++ padding k bits)))
unfolding update absorb
update_padded n k bits [] s small few whole total fits =
    finalize_padded n k bits s small few (omega arith) (omega arith) fits
update_padded zero k bits (byte ∷ message) s small few whole total fits = absurd (omega arith)
update_padded (suc n) k bits (byte ∷ message) s small few whole total fits =
    let block = s.buffer ++ byte ∷ [] in
    let longer : length block ≡ length s.buffer + 1 = length-append s.buffer (byte ∷ []) in
    let joined : block ++ (message ++ padding k bits)
        ≡ s.buffer ++ (byte ∷ (message ++ padding k bits)) =
      append_assoc s.buffer (byte ∷ []) (message ++ padding k bits) in
    elim (Bool-cases (length block == 64)) [
      | inl e ↦
          let full : length block ≡ 64 = ground arith in
          let absorbed : absorb byte s ≡ record {
            state = transform s.state block;
            bit_len = (s.bit_len + 512) % u64_mod;
            buffer = [];
          } =
            rw e refl in
          rw (absorbed, ← joined, one_block n s.state block (message ++ padding k bits) full)
            (update_padded n k bits message
              (record {
                state = transform s.state block;
                bit_len = (s.bit_len + 512) % u64_mod;
                buffer = [];
              })
              (omega arith) few (omega (arith, whole, full, longer))
              (omega (arith, total, fits, full, longer)) fits)
      | inr e ↦
          let partial : absorb byte s ≡ record s { buffer = block } = rw e refl in
          rw (partial, ← joined)
            (update_padded (suc n) k bits message (record s { buffer = block }) (ground arith) few
              (omega (arith, whole, longer)) (omega (arith, total, longer)) fits)
    ]

blocks_same :
    (n : ℕ) (s : HashState) (bytes : List ℕ) → compress_blocks n s bytes ≡ hash_blocks n s bytes
unfolding compress_blocks hash_blocks
blocks_same zero s bytes = refl
blocks_same (suc n) s bytes =
    rw (transform_same s (take 64 bytes))
      (blocks_same n (next_hash s (take 64 bytes)) (drop 64 bytes))

length-padded :
    (message : List ℕ) → length (padded message) ≡ length message + 9 + zeros_for (length message)
length-padded message =
    let k = zeros_for (length message) in
    let bits = big_endian 8 (length message * 8) in
    omega (
      arith,
      length-append message (0x80 ∷ (replicate k 0 ++ bits)),
      length-append (replicate k 0) bits,
      length-replicate k 0,
    )

-- A message hashed in one go, of less than 2 ^ 61 bytes.
pub hash-standard_digest :
    (message : List ℕ) → length message * 8 < u64_mod → hash message ≡ standard_digest message
unfolding hash standard_digest
hash-standard_digest message fits =
    let k = zeros_for (length message) in
    let n = (length message + 9 + k) / 64 in
    let bytes : message ++ padding k (length message * 8) ≡ padded message =
      rw (length_same (length message * 8)) refl in
    let blocks : n ≡ length (padded message) / 64 =
      ap (λ (l : ℕ). l / 64) (sym (length-padded message)) in
    update_padded n k (length message * 8) message new_hasher (omega arith) (omega arith)
      (omega arith) (omega arith) fits
    ∙ digest_same (compress_blocks n initial_state (message ++ padding k (length message * 8)))
    ∙ ap digest_bytes (
        blocks_same n initial_state (message ++ padding k (length message * 8))
        ∙ ap (λ s. hash_blocks n s (message ++ padding k (length message * 8))) initial_same
        ∙ ap (hash_blocks n initial_hash) bytes
        ∙ ap (λ m. hash_blocks m initial_hash (padded message)) blocks)

-- Feeding a message in parts is feeding it whole.
pub update-append : (xs ys : List ℕ) (s : Sha256) → update (xs ++ ys) s ≡ update ys (update xs s)
unfolding update
update-append [] ys s = refl
update-append (x ∷ xs) ys s = update-append xs ys (absorb x s)

-- What the scheme commits to, and how it joins two nodes, is the SHA-256 digest of the prefixed bytes
-- as FIPS 180-4 defines it, where these are less than 2 ^ 61 bytes.
pub scheme-standard_digest :
    (message left right : List ℕ)
    → length (leaf_prefix ++ message) * 8 < u64_mod
    → length (node_prefix ++ (left ++ right)) * 8 < u64_mod
    → (commit_raw_bytes message ≡ standard_digest (leaf_prefix ++ message))
      × (combine_nodes left right ≡ standard_digest (node_prefix ++ (left ++ right)))
      × (empty_node ≡ standard_digest empty_prefix)
unfolding commit_raw_bytes combine_nodes empty_node hash
scheme-standard_digest message left right h k = (
  ap {A = Sha256} {B = Commitment} finalize (sym (update-append leaf_prefix message new_hasher))
      ∙ hash-standard_digest (leaf_prefix ++ message) h,
  ap {A = Sha256} {B = Commitment} finalize (
        ap {A = Sha256} {B = Sha256} (update right)
          (sym (update-append node_prefix left new_hasher))
        ∙ sym (update-append (node_prefix ++ left) right new_hasher)
        ∙ ap {A = List ℕ} {B = Sha256} (λ m. update m new_hasher)
            (append_assoc node_prefix left right))
      ∙ hash-standard_digest (node_prefix ++ (left ++ right)) k,
  hash-standard_digest empty_prefix (omega arith),
)
