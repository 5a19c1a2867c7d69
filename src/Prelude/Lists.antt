-- ===== src/Prelude/Lists.antt =====
-- Lists measured by native numbers, sums over a list, and predicates by recursion.
use Prim.Native.Nat.{ℕ, zero, suc, ◌+◌, ◌-◌, ◌≤◌}
use mathlib.Core.Path.{◌≡◌, refl, sym, ◌∙◌}
use mathlib.Core.Logic.{◌⊎◌, ◌≢◌, inl, inr}
use mathlib.Core.Bool.{Bool, true, false, ◌||◌, false≢true}
use mathlib.Core.List.{List, [], ◌∷◌, ◌++◌, map}
use mathlib.Core.Option.{Option, none, some}
use native.Mathlib.Omega.{arith}
use fair_cross.Prelude.Tests.{if◌then◌else◌, ◌==◌, Bool-cases}

module _ {ℓ} {A : Type ℓ} where
  abbrev pub length : List A → ℕ
  length [] = 0
  length (x ∷ xs) = suc (length xs)

  abbrev pub get_elem? : List A → ℕ → Option A
  get_elem? [] i = none
  get_elem? (x ∷ xs) zero = some x
  get_elem? (x ∷ xs) (suc i) = get_elem? xs i

  abbrev pub get_or : List A → ℕ → A → A
  get_or [] i d = d
  get_or (x ∷ xs) zero d = x
  get_or (x ∷ xs) (suc i) d = get_or xs i d

  -- A write out of bounds changes nothing.
  abbrev pub set : List A → ℕ → A → List A
  set [] i v = []
  set (x ∷ xs) zero v = v ∷ xs
  set (x ∷ xs) (suc i) v = x ∷ set xs i v

  abbrev pub replicate : ℕ → A → List A
  replicate zero a = []
  replicate (suc n) a = a ∷ replicate n a

  abbrev pub take : ℕ → List A → List A
  take zero xs = []
  take (suc n) [] = []
  take (suc n) (x ∷ xs) = x ∷ take n xs

  abbrev pub drop : ℕ → List A → List A
  drop zero xs = xs
  drop (suc n) [] = []
  drop (suc n) (x ∷ xs) = drop n xs

  -- The last element, `d` if there is none.
  abbrev pub last_or : List A → A → A
  last_or [] d = d
  last_or (x ∷ xs) d = last_or xs x

  abbrev pub head_or : List A → A → A
  head_or [] d = d
  head_or (x ∷ xs) d = x

  -- The elements that pass a Boolean test.
  abbrev pub keep : (A → Bool) → List A → List A
  keep p [] = []
  keep p (x ∷ xs) = if p x then x ∷ keep p xs else keep p xs

  -- The sum of `f` over the list.
  abbrev pub sum_by : (A → ℕ) → List A → ℕ
  sum_by f [] = 0
  sum_by f (x ∷ xs) = f x + sum_by f xs

  abbrev pub All {κ} : (A → Type κ) → List A → Type κ
  All P [] = Unit
  All P (x ∷ xs) = P x × All P xs

  abbrev pub Any : (A → Type 0) → List A → Type 0
  Any P [] = ⊥
  Any P (x ∷ xs) = P x ⊎ Any P xs

module _ {ℓ} {A : Type ℓ} where
  pub length-append : (xs ys : List A) → length (xs ++ ys) ≡ length xs + length ys
  length-append [] ys = omega arith
  length-append (x ∷ xs) ys = omega (arith, length-append xs ys)

  -- A front of known length is taken, and dropped, whole.
  pub take-append : (xs ys : List A) → take (length xs) (xs ++ ys) ≡ xs
  take-append [] ys = refl
  take-append (x ∷ xs) ys = rw (take-append xs ys) refl

  pub drop-append : (xs ys : List A) → drop (length xs) (xs ++ ys) ≡ ys
  drop-append [] ys = refl
  drop-append (x ∷ xs) ys = drop-append xs ys

  pub length-drop : (n : ℕ) (xs : List A) → length (drop n xs) ≡ length xs - n
  length-drop zero xs = omega arith
  length-drop (suc n) [] = omega arith
  length-drop (suc n) (x ∷ xs) = omega (arith, length-drop n xs)

  drop-nil : (n : ℕ) → drop {A = A} n [] ≡ []
  drop-nil zero = refl
  drop-nil (suc n) = refl

  pub drop-drop : (m n : ℕ) (xs : List A) → drop n (drop m xs) ≡ drop (m + n) xs
  drop-drop zero n xs = let same : 0 + n ≡ n = omega arith in rw same refl
  drop-drop (suc m) n [] = let same : suc m + n ≡ suc (m + n) = omega arith in rw same (drop-nil n)
  drop-drop (suc m) n (x ∷ xs) =
      let same : suc m + n ≡ suc (m + n) = omega arith in rw same (drop-drop m n xs)

  pub sum_by-append : (f : A → ℕ) (xs ys : List A) → sum_by f (xs ++ ys) ≡ sum_by f xs + sum_by f ys
  sum_by-append f [] ys = omega arith
  sum_by-append f (x ∷ xs) ys = omega (arith, sum_by-append f xs ys)

  -- Pointwise equal functions have equal sums, and pointwise smaller ones smaller sums.
  pub sum_by-congr :
      (f g : A → ℕ) (xs : List A) → All (λ x. f x ≡ g x) xs → sum_by f xs ≡ sum_by g xs
  sum_by-congr f g [] h = refl
  sum_by-congr f g (x ∷ xs) h = omega (arith, h.0, sum_by-congr f g xs h.1)

  pub sum_by_mono :
      (f g : A → ℕ) (xs : List A) → All (λ x. f x ≤ g x) xs → sum_by f xs ≤ sum_by g xs
  sum_by_mono f g [] h = omega arith
  sum_by_mono f g (x ∷ xs) h = omega (arith, h.0, sum_by_mono f g xs h.1)

  pub sum_by-plus :
      (f g : A → ℕ) (xs : List A) → sum_by (λ x. f x + g x) xs ≡ sum_by f xs + sum_by g xs
  sum_by-plus f g [] = omega arith
  sum_by-plus f g (x ∷ xs) = omega (arith, sum_by-plus f g xs)

  pub All-map {κ μ} :
      {P : A → Type κ} {Q : A → Type μ}
      → ((x : A) → P x → Q x)
      → (xs : List A) → All P xs
      → All Q xs
  All-map f [] h = tt
  All-map f (x ∷ xs) h = (f x h.0, All-map f xs h.1)

  pub All-of {κ} : {P : A → Type κ} → ((x : A) → P x) → (xs : List A) → All P xs
  All-of f [] = tt
  All-of f (x ∷ xs) = (f x, All-of f xs)

  pub All-zip {κ μ} :
      (P : A → Type κ) (Q : A → Type μ) (xs : List A)
      → All P xs
      → All Q xs
      → All (λ x. P x × Q x) xs
  All-zip P Q [] h k = tt
  All-zip P Q (x ∷ xs) h k = ((h.0, k.0), All-zip P Q xs h.1 k.1)

  -- The keys of the elements are pairwise different.
  abbrev pub DistinctBy : (A → ℕ) → List A → Type 0
  DistinctBy key [] = Unit
  DistinctBy key (x ∷ xs) = All (λ y. key y ≢ key x) xs × DistinctBy key xs

abbrev pub contains : ℕ → List ℕ → Bool
contains k [] = false
contains k (x ∷ xs) = k == x || contains k xs

module _ {ℓ κ} {A : Type ℓ} {B : Type κ} where
  pub sum_by-map :
      (f : B → ℕ) (g : A → B) (xs : List A) → sum_by f (map g xs) ≡ sum_by (λ x. f (g x)) xs
  sum_by-map f g [] = refl
  sum_by-map f g (x ∷ xs) = omega (arith, sum_by-map f g xs)

  pub All-of_map {μ} :
      (P : B → Type μ) (g : A → B) (xs : List A) → All P (map g xs) → All (λ x. P (g x)) xs
  All-of_map P g [] h = tt
  All-of_map P g (x ∷ xs) h = (h.0, All-of_map P g xs h.1)

  pub All-to_map {μ} :
      (P : B → Type μ) (g : A → B) (xs : List A) → All (λ x. P (g x)) xs → All P (map g xs)
  All-to_map P g [] h = tt
  All-to_map P g (x ∷ xs) h = (h.0, All-to_map P g xs h.1)

  pub DistinctBy-map :
      (key : B → ℕ) (g : A → B) (xs : List A)
      → DistinctBy (λ x. key (g x)) xs
      → DistinctBy key (map g xs)
  DistinctBy-map key g [] h = tt
  DistinctBy-map key g (x ∷ xs) h =
      (All-to_map (λ y. key y ≢ key (g x)) g xs h.0, DistinctBy-map key g xs h.1)

  pub DistinctBy-of_map :
      (key : B → ℕ) (g : A → B) (xs : List A)
      → DistinctBy key (map g xs)
      → DistinctBy (λ x. key (g x)) xs
  DistinctBy-of_map key g [] h = tt
  DistinctBy-of_map key g (x ∷ xs) h =
      (All-of_map (λ y. key y ≢ key (g x)) g xs h.0, DistinctBy-of_map key g xs h.1)

module _ {ℓ} {A : Type ℓ} where
  -- A sum over what passes a test, as a sum over all.
  pub sum_by-keep :
      (f : A → ℕ) (t : A → Bool) (xs : List A)
      → sum_by f (keep t xs) ≡ sum_by (λ x. if t x then f x else 0) xs
  sum_by-keep f t [] = refl
  sum_by-keep f t (x ∷ xs) = ground (arith, sum_by-keep f t xs)

  pub All-of_keep :
      (P : A → Type 0) (t : A → Bool) (xs : List A)
      → All P (keep t xs)
      → All (λ x. t x ≡ true → P x) xs
  All-of_keep P t [] h = tt
  All-of_keep P t (x ∷ xs) h = elim (Bool-cases (t x)) [
    | inl e ↦ let k = rw e at h in ((λ _. k.0), All-of_keep P t xs k.1)
    | inr e ↦ let k = rw e at h in ((λ q. absurd (false≢true (sym e ∙ q))), All-of_keep P t xs k)
  ]

  pub All-keep_of {κ} :
      {P : A → Type κ} {Q : A → Type 0} (t : A → Bool)
      → ((x : A) → P x → t x ≡ true → Q x)
      → (xs : List A) → All P xs
      → All Q (keep t xs)
  All-keep_of t f [] h = tt
  All-keep_of t f (x ∷ xs) h = elim (Bool-cases (t x)) [
    | inl e ↦ rw e (f x h.0 e, All-keep_of t f xs h.1)
    | inr e ↦ rw e (All-keep_of t f xs h.1)
  ]

  pub All-to_keep : (P : A → Type 0) (t : A → Bool) (xs : List A) → All P xs → All P (keep t xs)
  All-to_keep P t [] h = tt
  All-to_keep P t (x ∷ xs) h = ground (arith, All-to_keep P t xs h.1)

  pub DistinctBy-keep :
      (key : A → ℕ) (t : A → Bool) (xs : List A) → DistinctBy key xs → DistinctBy key (keep t xs)
  DistinctBy-keep key t [] h = tt
  DistinctBy-keep key t (x ∷ xs) h =
      ground (arith, DistinctBy-keep key t xs h.1, All-to_keep (λ y. key y ≢ key x) t xs h.0)
