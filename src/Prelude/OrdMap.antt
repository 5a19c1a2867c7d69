-- ===== src/Prelude/OrdMap.antt =====
-- `std::map` from raw 64-bit keys: an association list in ascending order of its keys.
use Prim.Native.Nat.{ℕ, ◌+◌, ◌<◌, ◌≤◌}
use mathlib.Core.Path.{◌≡◌, refl, subst}
use mathlib.Core.Logic.{◌≢◌, inl, inr}
use mathlib.Core.Bool.{true}
use mathlib.Core.List.{List, [], ◌∷◌}
use mathlib.Core.Option.{Option, none, some, some-injective}
use fair_cross.Prelude.Lists.{All, sum_by}
use native.Mathlib.Omega.{arith}
use fair_cross.Prelude.Tests.{ltb, ◌==◌, if◌then◌else◌, Bool-cases}

abbrev pub OrdMap {ℓ} : Type ℓ → Type ℓ
OrdMap V = List (ℕ × V)

pub ==_self : (k : ℕ) → (k == k) ≡ true
==_self k = ground arith

module _ {ℓ} {V : Type ℓ} where
  -- `find`
  unfoldable pub lookup : ℕ → OrdMap V → Option V
  lookup k [] = none
  lookup k ((j, v) ∷ m) = if k == j then some v else lookup k m

  -- `m[k] = v`, `insert_or_assign`
  unfoldable pub insert : ℕ → V → OrdMap V → OrdMap V
  insert k v [] = (k, v) ∷ []
  insert k v ((j, w) ∷ m) =
      if k == j then (k, v) ∷ m else if ltb k j then (k, v) ∷ (j, w) ∷ m else (j, w) ∷ insert k v m

  unfoldable pub erase : ℕ → OrdMap V → OrdMap V
  erase k [] = []
  erase k ((j, w) ∷ m) = if k == j then m else (j, w) ∷ erase k m

  -- Every key is above `k`.
  abbrev pub Above : ℕ → OrdMap V → Type 0
  Above k [] = Unit
  Above k ((j, v) ∷ m) = (k < j) × Above k m

  -- The keys ascend, as a `std::map` keeps them.
  abbrev pub IsOrdered : OrdMap V → Type 0
  IsOrdered [] = Unit
  IsOrdered ((k, v) ∷ m) = Above k m × IsOrdered m

  pub lookup-insert :
      (j k : ℕ) (v : V) (m : OrdMap V)
      → lookup j (insert k v m) ≡ (if j == k then some v else lookup j m)
  unfolding lookup insert
  lookup-insert j k v [] = refl
  lookup-insert j k v ((i, w) ∷ m) = ground (arith, lookup-insert j k v m)

  Above-lower : (j k : ℕ) (m : OrdMap V) → j < k → Above k m → Above j m
  Above-lower j k [] l h = tt
  Above-lower j k ((i, w) ∷ m) l h = (omega arith, Above-lower j k m l h.1)

  Above-insert : (j k : ℕ) (v : V) (m : OrdMap V) → j < k → Above j m → Above j (insert k v m)
  unfolding insert
  Above-insert j k v [] l h = (l, tt)
  Above-insert j k v ((i, w) ∷ m) l h = ground (arith, Above-insert j k v m l h.1)

  pub insert-IsOrdered : (k : ℕ) (v : V) (m : OrdMap V) → IsOrdered m → IsOrdered (insert k v m)
  unfolding insert
  insert-IsOrdered k v [] h = (tt, tt)
  insert-IsOrdered k v ((i, w) ∷ m) h =
      ground (arith, insert-IsOrdered k v m h.1, Above-insert i k v m, Above-lower k i m)

  pub lookup-Above : (k j : ℕ) (m : OrdMap V) → Above j m → k ≤ j → lookup k m ≡ none
  unfolding lookup
  lookup-Above k j [] h l = refl
  lookup-Above k j ((i, w) ∷ m) h l = ground (arith, lookup-Above k j m h.1)

  Above-erase : (j k : ℕ) (m : OrdMap V) → Above j m → Above j (erase k m)
  unfolding erase
  Above-erase j k [] h = tt
  Above-erase j k ((i, w) ∷ m) h = ground (arith, Above-erase j k m h.1)

  pub erase-IsOrdered : (k : ℕ) (m : OrdMap V) → IsOrdered m → IsOrdered (erase k m)
  unfolding erase
  erase-IsOrdered k [] h = tt
  erase-IsOrdered k ((i, w) ∷ m) h = ground (arith, erase-IsOrdered k m h.1, Above-erase i k m)

  pub lookup-erase_ne : (j k : ℕ) (m : OrdMap V) → j ≢ k → lookup j (erase k m) ≡ lookup j m
  unfolding lookup erase
  lookup-erase_ne j k [] h = refl
  lookup-erase_ne j k ((i, w) ∷ m) h = ground (arith, lookup-erase_ne j k m h)

  pub lookup-erase_self : (k : ℕ) (m : OrdMap V) → IsOrdered m → lookup k (erase k m) ≡ none
  unfolding lookup erase
  lookup-erase_self k [] h = refl
  lookup-erase_self k ((i, w) ∷ m) h = elim (Bool-cases (k == i)) [
    | inl e ↦ rw e (lookup-Above k i m h.0 (ground arith))
    | inr e ↦ rw (e, lookup, e) (lookup-erase_self k m h.1)
  ]

  -- The sum of `f` over the values.
  abbrev pub sum_values : (V → ℕ) → OrdMap V → ℕ
  sum_values f m = sum_by (λ e. f e.1) m

  abbrev pub value_or_zero : (V → ℕ) → Option V → ℕ
  value_or_zero f none = 0
  value_or_zero f (some v) = f v

  -- A write replaces what the key stood for in the sum.
  pub sum_values-insert :
      (f : V → ℕ) (k : ℕ) (v : V) (m : OrdMap V)
      → IsOrdered m
      → sum_values f (insert k v m) + value_or_zero f (lookup k m) ≡ sum_values f m + f v
  unfolding lookup insert
  sum_values-insert f k v [] h = omega arith
  sum_values-insert f k v ((j, w) ∷ m) h =
      ground (arith, sum_values-insert f k v m h.1, lookup-Above k j m h.0)

  pub All-insert {κ} :
      (P : ℕ × V → Type κ) (k : ℕ) (v : V) (m : OrdMap V)
      → P (k, v)
      → All P m
      → All P (insert k v m)
  unfolding insert
  All-insert P k v [] p h = (p, tt)
  All-insert P k v ((j, w) ∷ m) p h = elim (Bool-cases (k == j)) [
    | inl e ↦ rw e (p, h.1)
    | inr e ↦ elim (Bool-cases (ltb k j)) [
      | inl l ↦ rw (e, l) (p, (h.0, h.1))
      | inr l ↦ rw (e, l) (h.0, All-insert P k v m p h.1)
    ]
  ]

  pub All-lookup {κ} :
      (P : V → Type κ) (k : ℕ) (m : OrdMap V) {v : V}
      → All (λ e. P e.1) m
      → lookup k m ≡ some v
      → P v
  unfolding lookup
  All-lookup P k [] h e = absurd (cc)
  All-lookup P k ((j, w) ∷ m) h e = elim (Bool-cases (k == j)) [
    | inl q ↦ subst P (some-injective w _ (rw q at e)) h.0
    | inr q ↦ All-lookup P k m h.1 (rw q at e)
  ]

  -- An erasure takes what the key stood for out of the sum.
  pub sum_values-erase :
      (f : V → ℕ) (k : ℕ) (v : V) (m : OrdMap V)
      → lookup k m ≡ some v
      → sum_values f (erase k m) + f v ≡ sum_values f m
  unfolding lookup erase
  sum_values-erase f k v [] e = absurd (cc)
  sum_values-erase f k v ((j, w) ∷ m) e = elim (Bool-cases (k == j)) [
    | inl q ↦ let same : w ≡ v = some-injective w v (rw q at e) in rw (q, same) (omega arith)
    | inr q ↦ rw q (omega (arith, sum_values-erase f k v m (rw q at e)))
  ]

  pub All-erase {κ} : (P : ℕ × V → Type κ) (k : ℕ) (m : OrdMap V) → All P m → All P (erase k m)
  unfolding erase
  All-erase P k [] h = tt
  All-erase P k ((j, w) ∷ m) h = elim (Bool-cases (k == j)) [
    | inl e ↦ rw e h.1
    | inr e ↦ rw e (h.0, All-erase P k m h.1)
  ]

  -- What is written and erased again leaves nothing new.
  pub All-erase_insert {κ} :
      (P : ℕ × V → Type κ) (k : ℕ) (v : V) (m : OrdMap V) → All P m → All P (erase k (insert k v m))
  unfolding erase insert
  All-erase_insert P k v [] h = rw (==_self k) tt
  All-erase_insert P k v ((j, w) ∷ m) h = elim (Bool-cases (k == j)) [
    | inl e ↦ rw (e, insert, erase, ==_self k) h.1
    | inr e ↦ elim (Bool-cases (ltb k j)) [
      | inl l ↦ rw (e, l, erase, ==_self k) h
      | inr l ↦ rw (e, l, erase, e) (h.0, All-erase_insert P k v m h.1)
    ]
  ]

  pub All-Above : (k : ℕ) (m : OrdMap V) → Above k m → All (λ e. k < e.0) m
  All-Above k [] h = tt
  All-Above k ((j, w) ∷ m) h = (h.0, All-Above k m h.1)
