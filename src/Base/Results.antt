-- ===== src/Base/Results.antt =====
-- Fallible Go calls. An `error` value records the calls of pkg/errors that built it; `panic` is a
-- run-time panic, such as a nil dereference, which a Go caller cannot test for.
use Prim.Native.String.{String}
use mathlib.Core.Path.{◌≡◌, refl}
use mathlib.Core.Option.{Option, none, some}
use mathlib.Core.Logic.{◌⊎◌, inl, inr}
use mathlib.Core.List.{List}

pub data Error : Type 0 where
  new : String → Error
  errorf : String → List String → Error
  wrap : Error → String → Error
  wrapf : Error → String → List String → Error

pub data Result {ℓ} (A : Type ℓ) : Type ℓ where
  ok : A → Result A
  err : Error → Result A
  panic : Result A

-- The rest of a function after a call that is checked: `abbrev`, as it computes at a constructor.
infixl 5 ◌>>=◌ ◌>>◌
abbrev pub ◌>>=◌ {ℓ ℓ'} : {X : Type ℓ} {Y : Type ℓ'} → Result X → (X → Result Y) → Result Y
panic >>= rest = panic
err e >>= rest = err e
ok x >>= rest = rest x

abbrev pub ◌>>◌ {ℓ ℓ'} : {X : Type ℓ} {Y : Type ℓ'} → Result X → Result Y → Result Y
call >> rest = call >>= λ _. rest

-- `return errors.Wrap(err, msg)` on the error of a call, whose value goes on where there is none.
abbrev pub wrapped {ℓ} : {A : Type ℓ} → String → Result A → Result A
wrapped msg (ok a) = ok a
wrapped msg (err e) = err (wrap e msg)
wrapped msg panic = panic

-- `errors.Wrap` on an error that may be nil: Wrap of nil is nil.
abbrev pub wrap_nil : String → Option Error → Option Error
wrap_nil msg none = none
wrap_nil msg (some e) = some (wrap e msg)

module _ {ℓ} {A : Type ℓ} where
  pub Result-cases :
      (r : Result A) → ((a : A) × (r ≡ ok a)) ⊎ ((e : Error) × (r ≡ err e)) ⊎ (r ≡ panic)
  Result-cases (ok a) = inl (a, refl)
  Result-cases (err e) = inr (inl (e, refl))
  Result-cases panic = inr (inr refl)

  pub ok-injective : {a b : A} → ◌≡◌ {A = Result A} (ok a) (ok b) → a ≡ b
  ok-injective h = cc

-- A chain that returned: its first call did, and then the rest.
pub >>=-eq-ok {ℓ ℓ'} :
    {X : Type ℓ} {Y : Type ℓ'} (call : Result X) (rest : X → Result Y) {y : Y}
    → (call >>= rest) ≡ ok y
    → (x : X) × (call ≡ ok x) × (rest x ≡ ok y)
>>=-eq-ok panic rest h = absurd (cc)
>>=-eq-ok (err e) rest h = absurd (cc)
>>=-eq-ok (ok x) rest h = (x, refl, h)
