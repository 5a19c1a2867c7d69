-- ===== src/Prelude/Sorting.antt =====
-- `std::sort` by a comparator: a stable insertion sort. Where the comparator leaves a tie the
-- standard fixes no order, and the model keeps the order of the input.
use Prim.Native.Nat.{ℕ, ◌+◌}
use mathlib.Core.Path.{◌≡◌, refl, sym}
use mathlib.Core.Bool.{Bool, true, false}
use mathlib.Core.Logic.{inl, inr, ◌≢◌}
use mathlib.Core.List.{List, [], ◌∷◌, Perm}
use mathlib.Core.List.Perm
use native.Mathlib.Omega.{arith}
use fair_cross.Prelude.Tests.{if◌then◌else◌, Bool-cases}
use fair_cross.Prelude.Lists.{sum_by, All, All-map, DistinctBy}

module _ {ℓ} {A : Type ℓ} (less : A → A → Bool) where
  unfoldable pub insert_sorted : A → List A → List A
  insert_sorted x [] = x ∷ []
  insert_sorted x (y ∷ ys) = if less y x then y ∷ insert_sorted x ys else x ∷ y ∷ ys

  unfoldable pub sort : List A → List A
  unfolding insert_sorted
  sort [] = []
  sort (x ∷ xs) = insert_sorted x (sort xs)

  -- Each element is followed only by elements that are not less than it.
  abbrev pub IsSortedBy : List A → Type ℓ
  IsSortedBy [] = Unit
  IsSortedBy (x ∷ xs) = All (λ y. less y x ≡ false) xs × IsSortedBy xs

  pub insert_sorted-perm : (x : A) (l : List A) → Perm (insert_sorted x l) (x ∷ l)
  unfolding insert_sorted
  insert_sorted-perm x [] = Perm.rfl
  insert_sorted-perm x (y ∷ ys) = elim (Bool-cases (less y x)) [
    | inl h ↦ rw h (Perm.trans (Perm.cons y (insert_sorted-perm x ys)) (Perm.swap x y ys))
    | inr h ↦ rw h Perm.rfl
  ]

  -- Sorting rearranges.
  pub sort-perm : (l : List A) → Perm (sort l) l
  unfolding sort
  sort-perm [] = Perm.rfl
  sort-perm (x ∷ xs) = Perm.trans (insert_sorted-perm x (sort xs)) (Perm.cons x (sort-perm xs))

  insert_sorted-sum_by :
      (f : A → ℕ) (x : A) (l : List A) → sum_by f (insert_sorted x l) ≡ f x + sum_by f l
  unfolding insert_sorted
  insert_sorted-sum_by f x [] = refl
  insert_sorted-sum_by f x (y ∷ ys) = ground (arith, insert_sorted-sum_by f x ys)

  pub sum_by-sort : (f : A → ℕ) (l : List A) → sum_by f (sort l) ≡ sum_by f l
  unfolding sort
  sum_by-sort f [] = refl
  sum_by-sort f (x ∷ xs) = omega (arith, insert_sorted-sum_by f x (sort xs), sum_by-sort f xs)

  pub All-insert_sorted {κ} :
      (P : A → Type κ) (x : A) (l : List A) → P x → All P l → All P (insert_sorted x l)
  unfolding insert_sorted
  All-insert_sorted P x [] p h = (p, tt)
  All-insert_sorted P x (y ∷ ys) p h = elim (Bool-cases (less y x)) [
    | inl e ↦ rw e (h.0, All-insert_sorted P x ys p h.1)
    | inr e ↦ rw e (p, (h.0, h.1))
  ]

  pub All-sort {κ} : (P : A → Type κ) (l : List A) → All P l → All P (sort l)
  unfolding sort
  All-sort P [] h = tt
  All-sort P (x ∷ xs) h = All-insert_sorted P x (sort xs) h.0 (All-sort P xs h.1)

  insert_sorted-DistinctBy :
      (key : A → ℕ) (x : A) (l : List A)
      → All (λ y. key y ≢ key x) l
      → DistinctBy key l
      → DistinctBy key (insert_sorted x l)
  unfolding insert_sorted
  insert_sorted-DistinctBy key x [] h d = (tt, tt)
  insert_sorted-DistinctBy key x (y ∷ ys) h d = elim (Bool-cases (less y x)) [
    | inl e ↦ rw e (
      All-insert_sorted (λ z. key z ≢ key y) x ys (λ q. h.0 (sym q)) d.0,
      insert_sorted-DistinctBy key x ys h.1 d.1,
    )
    | inr e ↦ rw e (h, d)
  ]

  pub sort-DistinctBy : (key : A → ℕ) (l : List A) → DistinctBy key l → DistinctBy key (sort l)
  unfolding sort
  sort-DistinctBy key [] d = tt
  sort-DistinctBy key (x ∷ xs) d =
      insert_sorted-DistinctBy key x (sort xs) (All-sort (λ y. key y ≢ key x) xs d.0)
        (sort-DistinctBy key xs d.1)

-- With a comparator that is asymmetric and whose complement is transitive the result is in order.
module _ {ℓ} {A : Type ℓ} (less : A → A → Bool)
    (asym : (x y : A) → less x y ≡ true → less y x ≡ false)
    (trans : (x y z : A) → less y x ≡ false → less z y ≡ false → less z x ≡ false) where
  insert_sorted-IsSortedBy :
      (x : A) (l : List A) → IsSortedBy less l → IsSortedBy less (insert_sorted less x l)
  unfolding insert_sorted
  insert_sorted-IsSortedBy x [] h = (tt, tt)
  insert_sorted-IsSortedBy x (y ∷ ys) h = elim (Bool-cases (less y x)) [
    | inl e ↦ rw e (
      All-insert_sorted less (λ z. less z y ≡ false) x ys (asym y x e) h.0,
      insert_sorted-IsSortedBy x ys h.1,
    )
    | inr e ↦ rw e ((e, All-map {P = λ z. less z y ≡ false} (λ z q. trans x y z e q) ys h.0), h)
  ]

  pub sort-IsSortedBy : (l : List A) → IsSortedBy less (sort less l)
  unfolding sort
  sort-IsSortedBy [] = tt
  sort-IsSortedBy (x ∷ xs) = insert_sorted-IsSortedBy x (sort less xs) (sort-IsSortedBy xs)

module _ {ℓ κ} {A : Type ℓ} (less : A → A → Bool) (P : A → Type κ) where
  All-of_insert_sorted : (x : A) (l : List A) → All P (insert_sorted less x l) → P x × All P l
  unfolding insert_sorted
  All-of_insert_sorted x [] h = h
  All-of_insert_sorted x (y ∷ ys) h = elim (Bool-cases (less y x)) [
    | inl e ↦
        let k = rw (e, insert_sorted) at h in
        let rest = All-of_insert_sorted x ys k.1 in (rest.0, (k.0, rest.1))
    | inr e ↦ let k = rw (e, insert_sorted) at h in k
  ]

  -- What holds of all of the sorted list holds of all of the list.
  pub All-of_sort : (l : List A) → All P (sort less l) → All P l
  unfolding sort
  All-of_sort [] h = tt
  All-of_sort (x ∷ xs) h =
      let k = All-of_insert_sorted x (sort less xs) h in (k.0, All-of_sort xs k.1)
