-- ===== src/Commitments/Sha256/Compression.antt =====
-- cpp/src/commitments/sha256.cpp: `transform`, the initial state and the bytes of a digest are those of
-- the standard.
use fair_cross.Prelude.{
  ℕ, zero, suc, ◌+◌, ◌*◌, ◌/◌, ◌%◌, ◌≡◌, refl, ◌∙◌, ap, List, [], ◌∷◌, length, length-append,
  get_or, arith,
}
use Prim.Native.Nat.{◌^◌}
use fair_cross.Commitments.Sha256.{
  HashState, initial_state, round_constants, rotr, choose, majority, sig0, sig1, gamma0, gamma1,
  block_words, extended, round_of, rounds, sum_of, transform, length_bytes, digest_of,
}
use fair_cross.Commitments.Sha256.Standard.{
  constants, initial_hash, big_endian, words_of, scheduled, step_3, steps, next_hash, digest_bytes,
}

constants_same : round_constants ≡ constants
constants_same = refl

pub initial_same : initial_state ≡ initial_hash
initial_same = refl

words_same : (n i : ℕ) (block : List ℕ) → block_words n i block ≡ words_of n i block
words_same zero i block = refl
words_same (suc n) i block = λ j. first j ∷ words_same n (i + 1) block j
  where
    first :
        get_or block (i * 4) 0 * 16777216
          + get_or block (i * 4 + 1) 0 * 65536
          + get_or block (i * 4 + 2) 0 * 256
          + get_or block (i * 4 + 3) 0
        ≡ ((get_or block (i * 4) 0 * 256 + get_or block (i * 4 + 1) 0) * 256
              + get_or block (i * 4 + 2) 0)
            * 256
          + get_or block (i * 4 + 3) 0
    first = omega arith

length-words_of : (n i : ℕ) (block : List ℕ) → length (words_of n i block) ≡ n
length-words_of zero i block = refl
length-words_of (suc n) i block = omega (arith, length-words_of n (i + 1) block)

extended_same : (n i : ℕ) (w : List ℕ) → length w ≡ i → extended n i w ≡ scheduled n w
unfolding extended gamma0 gamma1 rotr
extended_same zero i w h = refl
extended_same (suc n) i w h = rw (← h) (extended_same n (length w + 1) _ (length-append w _))

rounds_same : (ks ws : List ℕ) (s : HashState) → rounds ks ws s ≡ steps ks ws s
unfolding rounds round_of sig0 sig1 choose majority rotr
rounds_same [] ws s = refl
rounds_same (k ∷ ks) [] s = refl
rounds_same (k ∷ ks) (w ∷ ws) s = rounds_same ks ws (step_3 k w s)

pub transform_same : (s : HashState) (block : List ℕ) → transform s block ≡ next_hash s block
unfolding transform next_hash
transform_same s block =
    let schedule : extended 48 16 (block_words 16 0 block) ≡ scheduled 48 (words_of 16 0 block) =
      ap (extended 48 16) (words_same 16 0 block)
      ∙ extended_same 48 16 (words_of 16 0 block) (length-words_of 16 0 block) in
    ap (sum_of s) (
      ap (λ w. rounds round_constants w s) schedule
      ∙ rounds_same round_constants (scheduled 48 (words_of 16 0 block)) s
      ∙ ap (λ ks. steps ks (scheduled 48 (words_of 16 0 block)) s) constants_same)

last_byte : (w : ℕ) → w / 2 ^ 0 % 256 ≡ w % 256
last_byte w = omega arith

pub digest_same : (s : HashState) → digest_of s ≡ digest_bytes s
unfolding digest_of
digest_same s =
    rw
      (
        last_byte s.a,
        last_byte s.b,
        last_byte s.c,
        last_byte s.d,
        last_byte s.e,
        last_byte s.f,
        last_byte s.g,
        last_byte s.h,
      )
      refl

pub length_same : (n : ℕ) → length_bytes n ≡ big_endian 8 n
unfolding length_bytes
length_same n = rw (last_byte n) refl
