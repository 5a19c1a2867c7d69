-- ===== src/Domain/Encoding/Bytes.antt =====
-- cpp/include/faircross/domain/encoding.hpp: numbers written byte by byte (`append_le64`).
use mathlib.Core.List.{append_assoc, head-eq_of_cons-eq, tail-eq_of_cons-eq}
use native.Mathlib.Nat.{div-div-eq-div-mul, pow-suc}
use fair_cross.Prelude.{
  ℕ, zero, suc, ◌+◌, ◌*◌, ◌/◌, ◌%◌, ◌^◌, ◌<◌, ◌≡◌, refl, sym, ap, subst, ◌∙◌, List, [], ◌∷◌, ◌++◌,
  arith,
}
use fair_cross.Domain.Words.{u64_mod, u128_mod}
use fair_cross.Domain.Encoding.{append_bytes, append_le32, append_le64, append_le128}

-- The lowest `n` bytes of a number, the lowest first, before what follows.
abbrev pub little_endian : ℕ → ℕ → List ℕ → List ℕ
little_endian zero v after = after
little_endian (suc n) v after = v % 256 ∷ little_endian n (v / 256) after

-- A number of at most `n` bytes.
abbrev pub HasBytes : ℕ → ℕ → Type 0
HasBytes zero v = v ≡ 0
HasBytes (suc n) v = HasBytes n (v / 256)

-- The encoding of a number can be read back.
pub little_endian_injective :
    (n v w : ℕ) (xs ys : List ℕ)
    → HasBytes n v
    → HasBytes n w
    → little_endian n v xs ≡ little_endian n w ys
    → (v ≡ w) × (xs ≡ ys)
little_endian_injective zero v w xs ys h k e = (omega arith, e)
little_endian_injective (suc n) v w xs ys h k e =
    let low : v % 256 ≡ w % 256 = head-eq_of_cons-eq e in
    let (high, rest) =
      little_endian_injective n (v / 256) (w / 256) xs ys h k (tail-eq_of_cons-eq e) in
    (omega (arith, low, high), rest)

pow_eight_more : (m : ℕ) → 2 ^ (m + 8) ≡ 2 ^ m * 256
pow_eight_more m =
    let more : m + 8 ≡ suc (suc (suc (suc (suc (suc (suc (suc m))))))) = omega arith in
    rw
      (
        more,
        pow-suc 2 (suc (suc (suc (suc (suc (suc (suc m))))))),
        pow-suc 2 (suc (suc (suc (suc (suc (suc m)))))),
        pow-suc 2 (suc (suc (suc (suc (suc m))))),
        pow-suc 2 (suc (suc (suc (suc m)))),
        pow-suc 2 (suc (suc (suc m))),
        pow-suc 2 (suc (suc m)),
        pow-suc 2 (suc m),
        pow-suc 2 m,
      )
      (omega arith)

next_byte : (val i : ℕ) → val / 2 ^ (i * 8) / 256 ≡ val / 2 ^ ((i + 1) * 8)
next_byte val i =
    let more : (i + 1) * 8 ≡ i * 8 + 8 = omega arith in
    div-div-eq-div-mul val (2 ^ (i * 8)) 256
    ∙ ap {A = ℕ} {B = ℕ} (λ d. val / d) (sym (rw more (pow_eight_more (i * 8))))

append_bytes-little_endian :
    (n i : ℕ) (buf : List ℕ) (val : ℕ) (after : List ℕ)
    → append_bytes n i buf val ++ after ≡ buf ++ little_endian n (val / 2 ^ (i * 8)) after
unfolding append_bytes
append_bytes-little_endian zero i buf val after = refl
append_bytes-little_endian (suc n) i buf val after =
    rw
      (
        append_bytes-little_endian n (i + 1) (buf ++ val / 2 ^ (i * 8) % 256 ∷ []) val after,
        next_byte val i,
      )
      (append_assoc buf (val / 2 ^ (i * 8) % 256 ∷ [])
        (little_endian n (val / 2 ^ ((i + 1) * 8)) after))

append_from_zero :
    (n : ℕ) (buf : List ℕ) (val : ℕ) (after : List ℕ)
    → append_bytes n 0 buf val ++ after ≡ buf ++ little_endian n val after
append_from_zero n buf val after =
    let whole : val / 2 ^ (0 * 8) ≡ val = omega arith in
    subst (λ v. append_bytes n 0 buf val ++ after ≡ buf ++ little_endian n v after) whole
      (append_bytes-little_endian n 0 buf val after)

pub append_le32-little_endian :
    (buf : List ℕ) (val : ℕ) (after : List ℕ)
    → append_le32 buf val ++ after ≡ buf ++ little_endian 4 val after
unfolding append_le32
append_le32-little_endian = append_from_zero 4

pub append_le64-little_endian :
    (buf : List ℕ) (val : ℕ) (after : List ℕ)
    → append_le64 buf val ++ after ≡ buf ++ little_endian 8 val after
unfolding append_le64
append_le64-little_endian = append_from_zero 8

pub append_le128-little_endian :
    (buf : List ℕ) (val : ℕ) (after : List ℕ)
    → append_le128 buf val ++ after ≡ buf ++ little_endian 16 val after
unfolding append_le128
append_le128-little_endian = append_from_zero 16

-- A word is told from its eight bytes, whatever follows them; a long one from sixteen, a half one
-- from four.
pub word_read :
    (v w : ℕ) (xs ys : List ℕ)
    → v < u64_mod
    → w < u64_mod
    → little_endian 8 v xs ≡ little_endian 8 w ys
    → (v ≡ w) × (xs ≡ ys)
word_read v w xs ys h k e = little_endian_injective 8 v w xs ys (omega arith) (omega arith) e

pub long_read :
    (v w : ℕ) (xs ys : List ℕ)
    → v < u128_mod
    → w < u128_mod
    → little_endian 16 v xs ≡ little_endian 16 w ys
    → (v ≡ w) × (xs ≡ ys)
long_read v w xs ys h k e = little_endian_injective 16 v w xs ys (omega arith) (omega arith) e

pub half_read :
    (v w : ℕ) (xs ys : List ℕ)
    → v < 4294967296
    → w < 4294967296
    → little_endian 4 v xs ≡ little_endian 4 w ys
    → (v ≡ w) × (xs ≡ ys)
half_read v w xs ys h k e = little_endian_injective 4 v w xs ys (omega arith) (omega arith) e
