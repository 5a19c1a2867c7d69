-- ===== src/Commitments/Sha256.antt =====
-- cpp/include/faircross/commitments/sha256.hpp and cpp/src/commitments/sha256.cpp: the hash function
-- and the scheme of commitments on it. `buffer` holds the first `buf_len_` bytes of `buffer_`; no other
-- byte of it is read before it is written.
pub mod Standard
pub mod Compression
pub mod Padding
use Prim.Native.Nat.{bit_and, bit_or, bit_xor, ◌^◌}
use fair_cross.Prelude.{
  ℕ, zero, suc, ◌+◌, ◌-◌, ◌*◌, ◌/◌, ◌%◌, ltb, ◌==◌, if◌then◌else◌, List, [], ◌∷◌, ◌++◌, length,
  get_or, replicate,
}
use fair_cross.Domain.Words.{u64_mod}

-- The bytes of a digest.
abbrev pub Commitment : Type 0
Commitment = List ℕ

abbrev u32_mod : ℕ
u32_mod = 4294967296

abbrev round_constants : List ℕ
round_constants =
    0x428a2f98 ∷ 0x71374491 ∷ 0xb5c0fbcf ∷ 0xe9b5dba5 ∷ 0x3956c25b ∷ 0x59f111f1 ∷ 0x923f82a4
    ∷ 0xab1c5ed5 ∷ 0xd807aa98 ∷ 0x12835b01 ∷ 0x243185be ∷ 0x550c7dc3 ∷ 0x72be5d74 ∷ 0x80deb1fe
    ∷ 0x9bdc06a7 ∷ 0xc19bf174 ∷ 0xe49b69c1 ∷ 0xefbe4786 ∷ 0x0fc19dc6 ∷ 0x240ca1cc ∷ 0x2de92c6f
    ∷ 0x4a7484aa ∷ 0x5cb0a9dc ∷ 0x76f988da ∷ 0x983e5152 ∷ 0xa831c66d ∷ 0xb00327c8 ∷ 0xbf597fc7
    ∷ 0xc6e00bf3 ∷ 0xd5a79147 ∷ 0x06ca6351 ∷ 0x14292967 ∷ 0x27b70a85 ∷ 0x2e1b2138 ∷ 0x4d2c6dfc
    ∷ 0x53380d13 ∷ 0x650a7354 ∷ 0x766a0abb ∷ 0x81c2c92e ∷ 0x92722c85 ∷ 0xa2bfe8a1 ∷ 0xa81a664b
    ∷ 0xc24b8b70 ∷ 0xc76c51a3 ∷ 0xd192e819 ∷ 0xd6990624 ∷ 0xf40e3585 ∷ 0x106aa070 ∷ 0x19a4c116
    ∷ 0x1e376c08 ∷ 0x2748774c ∷ 0x34b0bcb5 ∷ 0x391c0cb3 ∷ 0x4ed8aa4a ∷ 0x5b9cca4f ∷ 0x682e6ff3
    ∷ 0x748f82ee ∷ 0x78a5636f ∷ 0x84c87814 ∷ 0x8cc70208 ∷ 0x90befffa ∷ 0xa4506ceb ∷ 0xbef9a3f7
    ∷ 0xc67178f2 ∷ []

unfoldable rotr : ℕ → ℕ → ℕ
rotr x n = bit_or (x / 2 ^ n) (x * 2 ^ (32 - n) % u32_mod)

-- The complement of a word is its difference from the word of ones.
unfoldable choose : ℕ → ℕ → ℕ → ℕ
choose e f g = bit_xor (bit_and e f) (bit_and (4294967295 - e) g)

unfoldable majority : ℕ → ℕ → ℕ → ℕ
majority a b c = bit_xor (bit_xor (bit_and a b) (bit_and a c)) (bit_and b c)

unfoldable sig0 : ℕ → ℕ
unfolding rotr
sig0 x = bit_xor (bit_xor (rotr x 2) (rotr x 13)) (rotr x 22)

unfoldable sig1 : ℕ → ℕ
unfolding rotr
sig1 x = bit_xor (bit_xor (rotr x 6) (rotr x 11)) (rotr x 25)

unfoldable gamma0 : ℕ → ℕ
unfolding rotr
gamma0 x = bit_xor (bit_xor (rotr x 7) (rotr x 18)) (x / 2 ^ 3)

unfoldable gamma1 : ℕ → ℕ
unfolding rotr
gamma1 x = bit_xor (bit_xor (rotr x 17) (rotr x 19)) (x / 2 ^ 10)

-- `state_[8]`, and the eight working variables.
pub record HashState : Type 0 where
  pub a : ℕ
  pub b : ℕ
  pub c : ℕ
  pub d : ℕ
  pub e : ℕ
  pub f : ℕ
  pub g : ℕ
  pub h : ℕ

abbrev pub initial_state : HashState
initial_state = record {
  a = 0x6a09e667;
  b = 0xbb67ae85;
  c = 0x3c6ef372;
  d = 0xa54ff53a;
  e = 0x510e527f;
  f = 0x9b05688c;
  g = 0x1f83d9ab;
  h = 0x5be0cd19;
}

-- The four shifted bytes have no bit in common, so that their or is their sum.
abbrev word_at : List ℕ → ℕ → ℕ
word_at block i =
    get_or block (i * 4) 0 * 16777216
    + get_or block (i * 4 + 1) 0 * 65536
    + get_or block (i * 4 + 2) 0 * 256
    + get_or block (i * 4 + 3) 0

abbrev block_words : ℕ → ℕ → List ℕ → List ℕ
block_words zero i block = []
block_words (suc n) i block = word_at block i ∷ block_words n (i + 1) block

-- `n` more words of the schedule, from index `i` on.
unfoldable extended : ℕ → ℕ → List ℕ → List ℕ
unfolding gamma0 gamma1
extended zero i m = m
extended (suc n) i m = extended n (i + 1) (
    m
    ++ (gamma1 (get_or m (i - 2) 0)
          + get_or m (i - 7) 0
          + gamma0 (get_or m (i - 15) 0)
          + get_or m (i - 16) 0)
        % u32_mod
      ∷ [])

unfoldable round_of : ℕ → ℕ → HashState → HashState
unfolding sig0 sig1 choose majority
round_of k w s =
    let t1 = (s.h + sig1 s.e + choose s.e s.f s.g + k + w) % u32_mod in
    let t2 = (sig0 s.a + majority s.a s.b s.c) % u32_mod in
    record {
      a = (t1 + t2) % u32_mod;
      b = s.a;
      c = s.b;
      d = s.c;
      e = (s.d + t1) % u32_mod;
      f = s.e;
      g = s.f;
      h = s.g;
    }

unfoldable rounds : List ℕ → List ℕ → HashState → HashState
unfolding round_of
rounds [] m s = s
rounds (k ∷ ks) [] s = s
rounds (k ∷ ks) (w ∷ m) s = rounds ks m (round_of k w s)

abbrev sum_of : HashState → HashState → HashState
sum_of s t = record {
  a = (s.a + t.a) % u32_mod;
  b = (s.b + t.b) % u32_mod;
  c = (s.c + t.c) % u32_mod;
  d = (s.d + t.d) % u32_mod;
  e = (s.e + t.e) % u32_mod;
  f = (s.f + t.f) % u32_mod;
  g = (s.g + t.g) % u32_mod;
  h = (s.h + t.h) % u32_mod;
}

unfoldable pub transform : HashState → List ℕ → HashState
unfolding extended rounds
transform state block =
    sum_of state (rounds round_constants (extended 48 16 (block_words 16 0 block)) state)

pub record Sha256 : Type 0 where
  pub state : HashState
  pub bit_len : ℕ
  pub buffer : List ℕ

abbrev pub new_hasher : Sha256
new_hasher = record { state = initial_state; bit_len = 0; buffer = [] }

-- One round of the loop of `update`.
unfoldable pub absorb : ℕ → Sha256 → Sha256
absorb byte s =
    let buffer = s.buffer ++ byte ∷ [] in
    if length buffer == 64
    then record {
      state = transform s.state buffer;
      bit_len = (s.bit_len + 512) % u64_mod;
      buffer = [];
    }
    else record s { buffer = buffer }

unfoldable pub update : List ℕ → Sha256 → Sha256
unfolding absorb
update [] s = s
update (byte ∷ message) s = update message (absorb byte s)

unfoldable pub length_bytes : ℕ → List ℕ
length_bytes n =
    n / 2 ^ 56 % 256
    ∷ n / 2 ^ 48 % 256
    ∷ n / 2 ^ 40 % 256
    ∷ n / 2 ^ 32 % 256
    ∷ n / 2 ^ 24 % 256
    ∷ n / 2 ^ 16 % 256
    ∷ n / 2 ^ 8 % 256
    ∷ n % 256
    ∷ []

abbrev pub word_bytes : ℕ → List ℕ → List ℕ
word_bytes w after = w / 2 ^ 24 % 256 ∷ w / 2 ^ 16 % 256 ∷ w / 2 ^ 8 % 256 ∷ w % 256 ∷ after

unfoldable pub digest_of : HashState → Commitment
digest_of s = word_bytes s.a (
    word_bytes s.b (
      word_bytes s.c
        (word_bytes s.d (word_bytes s.e (word_bytes s.f (word_bytes s.g (word_bytes s.h [])))))))

-- The last block or the last two: the mark, zeros, and the length in bits.
unfoldable pub finalize : Sha256 → Commitment
unfolding length_bytes digest_of
finalize s =
    let filled = length s.buffer in
    let bit_len = (s.bit_len + filled * 8) % u64_mod in
    digest_of (
      if ltb filled 56
      then transform s.state
          ((s.buffer ++ 0x80 ∷ replicate (55 - filled) 0) ++ length_bytes bit_len)
      else transform (transform s.state (s.buffer ++ 0x80 ∷ replicate (63 - filled) 0))
          (replicate 56 0 ++ length_bytes bit_len))

unfoldable pub hash : List ℕ → Commitment
unfolding update finalize
hash message = finalize (update message new_hasher)

abbrev pub leaf_prefix : List ℕ
leaf_prefix = b'F' ∷ b'C' ∷ b'_' ∷ b'L' ∷ b'E' ∷ b'A' ∷ b'F' ∷ b'_' ∷ []

abbrev pub node_prefix : List ℕ
node_prefix = b'F' ∷ b'C' ∷ b'_' ∷ b'N' ∷ b'O' ∷ b'D' ∷ b'E' ∷ b'_' ∷ []

abbrev pub empty_prefix : List ℕ
empty_prefix =
    b'F' ∷ b'C' ∷ b'_' ∷ b'E' ∷ b'M' ∷ b'P' ∷ b'T' ∷ b'Y' ∷ b'_' ∷ b'N' ∷ b'O' ∷ b'D' ∷ b'E' ∷ []

-- `Sha256Scheme`.
unfoldable pub commit_raw_bytes : List ℕ → Commitment
unfolding update finalize
commit_raw_bytes message = finalize (update message (update leaf_prefix new_hasher))

unfoldable pub combine_nodes : Commitment → Commitment → Commitment
unfolding update finalize
combine_nodes left right = finalize (update right (update left (update node_prefix new_hasher)))

unfoldable pub empty_node : Commitment
unfolding update finalize
empty_node = finalize (update empty_prefix new_hasher)
