-- ===== src/Domain/Error.antt =====
-- cpp/include/faircross/domain/error.hpp: the two kinds of error, and `Result<T>`, which is a value
-- or one of them. A throw of `unwrap` is `none`.
use Prim.Native.String.{◌++◌ as concat}
use fair_cross.Prelude.{Bool, true, false, String, Option, none, some, ◌≡◌, ◌∙◌, ap, refl, sym}

-- `Ok`, the value of an operation that only succeeds or fails.
abbrev pub Ok : Type 0
Ok = Unit {0}

abbrev pub ok_value : Ok
ok_value = tt

pub data PrimitiveErrorKind : Type 0 where
  zero_value arithmetic_overflow insufficient_balance invalid_side : PrimitiveErrorKind

pub data DomainErrorKind : Type 0 where
  order_validation_failed : DomainErrorKind
  duplicate_account : DomainErrorKind
  account_not_found : DomainErrorKind
  instrument_mismatch : DomainErrorKind
  duplicate_order_id : DomainErrorKind

-- `PrimitiveError` and `DomainError`, the two error alternatives of the variant.
pub data Error : Type 0 where
  primitive_error : PrimitiveErrorKind → String → Error
  domain_error : DomainErrorKind → String → Error

-- `Result<T>::error_message`, by the `to_string` of each alternative.
unfoldable pub error_message : Error → String
error_message (primitive_error zero_value c) =
    concat "ZeroValue: " (concat c " must be strictly positive")
error_message (primitive_error arithmetic_overflow c) = concat "ArithmeticOverflow in " c
error_message (primitive_error insufficient_balance c) = concat "InsufficientBalance for " c
error_message (primitive_error invalid_side c) = concat "InvalidSide: " c
error_message (domain_error k m) = m

pub data Result {ℓ} (A : Type ℓ) : Type ℓ where
  ok : A → Result A
  err : Error → Result A

abbrev pub overflow : String → Error
overflow c = primitive_error arithmetic_overflow c

abbrev pub insufficient : String → Error
insufficient c = primitive_error insufficient_balance c

-- `Result(std::string)`.
abbrev pub failed_with : String → Error
failed_with m = domain_error order_validation_failed m

module _ {ℓ} {A : Type ℓ} where
  unfoldable pub is_ok : Result A → Bool
  is_ok (ok a) = true
  is_ok (err e) = false

  unfoldable pub is_err : Result A → Bool
  is_err (ok a) = false
  is_err (err e) = true

  unfoldable pub unwrap : Result A → Option A
  unwrap (ok a) = some a
  unwrap (err e) = none

  unfoldable pub unwrap_or : Result A → A → A
  unwrap_or (ok a) d = a
  unwrap_or (err e) d = d

-- The early return `if (res.is_err()) return res;` inside a function that returns the same
-- `Result<T>`: the error goes on as it is.
module _ {ℓ κ} {A : Type ℓ} {B : Type κ} where
  infixl 5 ◌>>=◌ ◌>>◌
  abbrev pub ◌>>=◌ : Result A → (A → Result B) → Result B
  ok value >>= next = next value
  err failure >>= next = err failure

  abbrev pub ◌>>◌ : Result A → Result B → Result B
  first >> second = first >>= λ _. second

-- The same early return where the types differ: the converting constructor
-- `Result(const Result<U>&)` keeps the message of the error only.
abbrev pub converted {ℓ} : {A : Type ℓ} → Result A → Result A
converted (ok a) = ok a
converted (err e) = err (failed_with (error_message e))

-- A failure replaced by an error of the caller's own.
abbrev pub or_fail {ℓ} : {A : Type ℓ} → Result A → Error → Result A
or_fail (ok a) e = ok a
or_fail (err _) e = err e

abbrev pub guard : Bool → Error → Result Ok
guard true e = ok tt
guard false e = err e

-- Success, with no word on the value.
abbrev pub IsOk {ℓ} : {A : Type ℓ} → Result A → Type 0
IsOk (ok a) = Unit
IsOk (err e) = ⊥

abbrev pub IsErr {ℓ} : {A : Type ℓ} → Result A → Type 0
IsErr (ok a) = ⊥
IsErr (err e) = Unit

-- A chain that succeeds has a first step that does, and goes on from its value.
pub >>=-eq-ok {ℓ κ} :
    {A : Type ℓ} {B : Type κ} (first : Result A) (next : A → Result B) {result : B}
    → (first >>= next) ≡ ok result
    → (value : A) × (first ≡ ok value) × (next value ≡ ok result)
>>=-eq-ok (ok value) next e = (value, refl, e)
>>=-eq-ok (err failure) next e = cc

pub converted-eq-ok {ℓ} : {A : Type ℓ} (m : Result A) {a : A} → converted m ≡ ok a → m ≡ ok a
converted-eq-ok (ok a) h = h
converted-eq-ok (err e) h = cc

pub or_fail-eq-ok {ℓ} :
    {A : Type ℓ} (m : Result A) (e : Error) {a : A} → or_fail m e ≡ ok a → m ≡ ok a
or_fail-eq-ok (ok a) e h = h
or_fail-eq-ok (err _) e h = cc

pub guard-eq-ok : (b : Bool) (e : Error) {u : Ok} → guard b e ≡ ok u → b ≡ true
guard-eq-ok true e h = refl
guard-eq-ok false e h = cc

pub IsOk-eq-ok {ℓ} : {A : Type ℓ} (m : Result A) → IsOk m → (a : A) × (m ≡ ok a)
IsOk-eq-ok (ok a) h = (a, refl)
IsOk-eq-ok (err e) h = absurd h

pub ok-injective {ℓ} : {A : Type ℓ} {a b : A} → ◌≡◌ {A = Result A} (ok a) (ok b) → a ≡ b
ok-injective h = cc

pub eq-ok-IsOk {ℓ} : {A : Type ℓ} (m : Result A) {a : A} → m ≡ ok a → IsOk m
eq-ok-IsOk (ok a) h = tt
eq-ok-IsOk (err e) h = cc

-- What is known of the first step carries the chain on.
pub >>=-known {ℓ κ} :
    {A : Type ℓ} {B : Type κ} (first : Result A) (next : A → Result B) (value : A) {result : B}
    → first ≡ ok value
    → (first >>= next) ≡ ok result
    → next value ≡ ok result
>>=-known first next value e h = sym (ap (λ m. m >>= next) e) ∙ h
