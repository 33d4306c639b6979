-- ===== src/Base/Errors.antt =====
-- Go's `error` values and the results of functions that may fail or panic.
use Prim.Native.Nat.{ℕ}
use Prim.Native.String.{String}
use mathlib.Core.Bool.{Bool, true, false}
use mathlib.Core.Option.{Option, none, some}
use mathlib.Core.Path.{◌≡◌, refl}

-- `new` is an error made by `errors.New`, `wrapped` one that annotates its cause, `foreign` an error
-- of code outside the repository, and the others are the sentinels that the code compares with.
pub data Error : Type 0 where
  new : String → Error
  wrapped : String → Error → Error
  foreign : ℕ → Error
  eof : Error
  incorrect_utf8 : Error
  unknown_issuer : Error
  signature_expired : Error

-- `errors.Is` with a sentinel, which looks through the causes.
abbrev pub is_eof : Error → Bool
is_eof eof = true
is_eof (wrapped m e) = is_eof e
is_eof _ = false

abbrev pub is_unknown_issuer : Error → Bool
is_unknown_issuer unknown_issuer = true
is_unknown_issuer (wrapped m e) = is_unknown_issuer e
is_unknown_issuer _ = false

abbrev pub is_signature_expired : Error → Bool
is_signature_expired signature_expired = true
is_signature_expired (wrapped m e) = is_signature_expired e
is_signature_expired _ = false

-- A result `(v, nil)`, `(nil, err)`, or a panic at run time.
pub data Result {ℓ} (A : Type ℓ) : Type ℓ where
  ok : A → Result A
  err : Error → Result A
  panic : Result A

infixl 5 ◌>>=◌ ◌>>◌
abbrev pub ◌>>=◌ {ℓ κ} : {A : Type ℓ} {B : Type κ} → Result A → (A → Result B) → Result B
ok a >>= f = f a
err e >>= f = err e
panic >>= f = panic

abbrev pub ◌>>◌ {ℓ} : {B : Type ℓ} → Result (Unit {0}) → Result B → Result B
m >> k = m >>= λ _. k

-- `if test { return nil, err }`
abbrev pub fail_if : Bool → Error → Result (Unit {0})
fail_if true e = err e
fail_if false e = ok tt

-- `if err != nil { return nil, errors.Wrap(err, message) }`
abbrev pub wrap_err {ℓ} : {A : Type ℓ} → String → Result A → Result A
wrap_err m (ok a) = ok a
wrap_err m (err e) = err (wrapped m e)
wrap_err m panic = panic

-- The field of a value behind a pointer; a nil pointer panics.
abbrev pub deref {ℓ} : {A : Type ℓ} → Option A → Result A
deref none = panic
deref (some a) = ok a

-- The call returns a value, and the value meets `P`.
abbrev pub Returns {ℓ} : {A : Type ℓ} → (A → Type 0) → Result A → Type 0
Returns P (ok a) = P a
Returns P (err e) = ⊥
Returns P panic = ⊥

-- If the call returns a value, the value meets `P`.
abbrev pub Ensures {ℓ} : {A : Type ℓ} → (A → Type 0) → Result A → Type 0
Ensures P (ok a) = P a
Ensures P (err e) = Unit
Ensures P panic = Unit

module _ {ℓ} {A B : Type ℓ} where
  pub Returns-bind :
      (P : A → Type 0) (Q : B → Type 0) (m : Result A) (f : A → Result B)
      → Returns P m
      → ((a : A) → P a → Returns Q (f a))
      → Returns Q (m >>= f)
  Returns-bind P Q (ok a) f h k = k a h
  Returns-bind P Q (err e) f h k = absurd h
  Returns-bind P Q panic f h k = absurd h

  pub Ensures-bind :
      (P : A → Type 0) (Q : B → Type 0) (m : Result A) (f : A → Result B)
      → Ensures P m
      → ((a : A) → P a → Ensures Q (f a))
      → Ensures Q (m >>= f)
  Ensures-bind P Q (ok a) f h k = k a h
  Ensures-bind P Q (err e) f h k = tt
  Ensures-bind P Q panic f h k = tt

module _ {ℓ} {A : Type ℓ} where
  pub Ensures-wrap_err :
      (P : A → Type 0) (m : String) (r : Result A) → Ensures P r → Ensures P (wrap_err m r)
  Ensures-wrap_err P m (ok a) h = h
  Ensures-wrap_err P m (err e) h = tt
  Ensures-wrap_err P m panic h = tt

  pub Ensures-map :
      (P Q : A → Type 0) (r : Result A) → ((a : A) → P a → Q a) → Ensures P r → Ensures Q r
  Ensures-map P Q (ok a) f h = f a h
  Ensures-map P Q (err e) f h = tt
  Ensures-map P Q panic f h = tt

-- A call that returns a value returns this value.
pub Ensures-ok : {A : Type 0} (r : Result A) → Ensures (λ a. r ≡ ok a) r
Ensures-ok (ok a) = refl
Ensures-ok (err e) = tt
Ensures-ok panic = tt
