-- ===== src/Commitments/Sha256/Standard.antt =====
-- SHA-256 as FIPS 180-4 defines it, for messages of whole bytes, from the text of the standard: of the
-- code it uses the records of eight words only. The constants are not listed but computed, as the
-- standard explains them, from the square and cube roots of the first primes.
use Prim.Native.Nat.{bit_and, bit_or, bit_xor, ◌^◌}
use fair_cross.Prelude.{
  ℕ, zero, suc, ◌+◌, ◌-◌, ◌*◌, ◌/◌, ◌%◌, leb, if◌then◌else◌, List, [], ◌∷◌, ◌++◌, map, length,
  get_or, replicate, take, drop,
}
use fair_cross.Commitments.Sha256.{HashState}

-- Section 3.2: addition, complement and rotation of 32-bit words.
abbrev pub wrapped : ℕ → ℕ
wrapped n = n % 2 ^ 32

abbrev pub complement : ℕ → ℕ
complement x = 2 ^ 32 - 1 - x

abbrev pub rotated : ℕ → ℕ → ℕ
rotated n x = bit_or (x / 2 ^ n) (wrapped (x * 2 ^ (32 - n)))

abbrev pub xor_of : ℕ → ℕ → ℕ → ℕ
xor_of x y z = bit_xor (bit_xor x y) z

-- Section 4.1.2: the functions.
abbrev pub ch : ℕ → ℕ → ℕ → ℕ
ch x y z = bit_xor (bit_and x y) (bit_and (complement x) z)

abbrev pub maj : ℕ → ℕ → ℕ → ℕ
maj x y z = xor_of (bit_and x y) (bit_and x z) (bit_and y z)

abbrev pub upper_sigma_0 : ℕ → ℕ
upper_sigma_0 x = xor_of (rotated 2 x) (rotated 13 x) (rotated 22 x)

abbrev pub upper_sigma_1 : ℕ → ℕ
upper_sigma_1 x = xor_of (rotated 6 x) (rotated 11 x) (rotated 25 x)

abbrev pub lower_sigma_0 : ℕ → ℕ
lower_sigma_0 x = xor_of (rotated 7 x) (rotated 18 x) (x / 2 ^ 3)

abbrev pub lower_sigma_1 : ℕ → ℕ
lower_sigma_1 x = xor_of (rotated 17 x) (rotated 19 x) (x / 2 ^ 10)

-- The largest number below `acc + 2 ^ bits` whose power does not exceed `n`, bit by bit.
abbrev pub root_from : ℕ → ℕ → ℕ → ℕ → ℕ
root_from power n zero acc = acc
root_from power n (suc bits) acc =
    root_from power n bits (if leb ((acc + 2 ^ bits) ^ power) n then acc + 2 ^ bits else acc)

-- The first 32 bits of the fractional part of a root.
abbrev pub fraction_of_root : ℕ → ℕ → ℕ
fraction_of_root power p = wrapped (root_from power (p * 2 ^ (32 * power)) 40 0)

-- Section 4.2.2: the constants, of the cube roots of the first 64 primes.
abbrev pub primes : List ℕ
primes =
    2 ∷ 3 ∷ 5 ∷ 7 ∷ 11 ∷ 13 ∷ 17 ∷ 19 ∷ 23 ∷ 29 ∷ 31 ∷ 37 ∷ 41 ∷ 43 ∷ 47 ∷ 53 ∷ 59 ∷ 61 ∷ 67 ∷ 71
    ∷ 73 ∷ 79 ∷ 83 ∷ 89 ∷ 97 ∷ 101 ∷ 103 ∷ 107 ∷ 109 ∷ 113 ∷ 127 ∷ 131 ∷ 137 ∷ 139 ∷ 149 ∷ 151 ∷ 157
    ∷ 163 ∷ 167 ∷ 173 ∷ 179 ∷ 181 ∷ 191 ∷ 193 ∷ 197 ∷ 199 ∷ 211 ∷ 223 ∷ 227 ∷ 229 ∷ 233 ∷ 239 ∷ 241
    ∷ 251 ∷ 257 ∷ 263 ∷ 269 ∷ 271 ∷ 277 ∷ 281 ∷ 283 ∷ 293 ∷ 307 ∷ 311 ∷ []

abbrev pub constants : List ℕ
constants = map (fraction_of_root 3) primes

-- Section 5.3.3: the initial hash value, of the square roots of the first eight.
abbrev pub initial_hash : HashState
initial_hash = record {
  a = fraction_of_root 2 2;
  b = fraction_of_root 2 3;
  c = fraction_of_root 2 5;
  d = fraction_of_root 2 7;
  e = fraction_of_root 2 11;
  f = fraction_of_root 2 13;
  g = fraction_of_root 2 17;
  h = fraction_of_root 2 19;
}

-- The last `n` bytes of a number, the most significant one first.
abbrev pub big_endian : ℕ → ℕ → List ℕ
big_endian zero w = []
big_endian (suc n) w = w / 2 ^ (8 * n) % 256 ∷ big_endian n w

-- Section 5.1.1: as many zeros as make the length a multiple of 64 bytes.
abbrev pub zeros_for : ℕ → ℕ
zeros_for n = (119 - n % 64) % 64

abbrev pub padded : List ℕ → List ℕ
padded message =
    message
    ++ (0x80 ∷ (replicate (zeros_for (length message)) 0 ++ big_endian 8 (length message * 8)))

-- Section 5.2.1: a block as 16 words.
abbrev pub words_of : ℕ → ℕ → List ℕ → List ℕ
words_of zero t block = []
words_of (suc n) t block =
    (((get_or block (t * 4) 0 * 256 + get_or block (t * 4 + 1) 0) * 256
          + get_or block (t * 4 + 2) 0)
        * 256
      + get_or block (t * 4 + 3) 0)
    ∷ words_of n (t + 1) block

-- Section 6.2.2, step 1: the schedule, from the words so far.
abbrev pub scheduled : ℕ → List ℕ → List ℕ
scheduled zero w = w
scheduled (suc n) w =
    let t = length w in
    scheduled n (
      w
      ++ wrapped (
          lower_sigma_1 (get_or w (t - 2) 0)
          + get_or w (t - 7) 0
          + lower_sigma_0 (get_or w (t - 15) 0)
          + get_or w (t - 16) 0)
        ∷ [])

-- Step 3, at one word and constant.
abbrev pub step_3 : ℕ → ℕ → HashState → HashState
step_3 k w s =
    let t1 = wrapped (s.h + upper_sigma_1 s.e + ch s.e s.f s.g + k + w) in
    let t2 = wrapped (upper_sigma_0 s.a + maj s.a s.b s.c) in
    record {
      a = wrapped (t1 + t2);
      b = s.a;
      c = s.b;
      d = s.c;
      e = wrapped (s.d + t1);
      f = s.e;
      g = s.f;
      h = s.g;
    }

abbrev pub steps : List ℕ → List ℕ → HashState → HashState
steps [] w s = s
steps (k ∷ ks) [] s = s
steps (k ∷ ks) (w ∷ ws) s = steps ks ws (step_3 k w s)

-- Step 4: the intermediate hash value.
unfoldable pub next_hash : HashState → List ℕ → HashState
next_hash s block =
    let t = steps constants (scheduled 48 (words_of 16 0 block)) s in
    record {
      a = wrapped (s.a + t.a);
      b = wrapped (s.b + t.b);
      c = wrapped (s.c + t.c);
      d = wrapped (s.d + t.d);
      e = wrapped (s.e + t.e);
      f = wrapped (s.f + t.f);
      g = wrapped (s.g + t.g);
      h = wrapped (s.h + t.h);
    }

-- `n` blocks of 64 bytes, one after the other.
unfoldable pub hash_blocks : ℕ → HashState → List ℕ → HashState
unfolding next_hash
hash_blocks zero s bytes = s
hash_blocks (suc n) s bytes = hash_blocks n (next_hash s (take 64 bytes)) (drop 64 bytes)

abbrev pub digest_bytes : HashState → List ℕ
digest_bytes s =
    big_endian 4 s.a
    ++ (big_endian 4 s.b
        ++ (big_endian 4 s.c
            ++ (big_endian 4 s.d
                ++ (big_endian 4 s.e
                    ++ (big_endian 4 s.f ++ (big_endian 4 s.g ++ big_endian 4 s.h))))))

unfoldable pub standard_digest : List ℕ → List ℕ
unfolding hash_blocks
standard_digest message =
    let bytes = padded message in digest_bytes (hash_blocks (length bytes / 64) initial_hash bytes)
