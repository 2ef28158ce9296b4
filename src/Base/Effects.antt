-- ===== src/Base/Effects.antt =====
-- Fallible Go functions that read and write a state: what was written stays written, whether the
-- function returns, fails or panics.
pub mod Always
pub mod Returns
pub mod Calm
use Prim.Native.String.{String}
use mathlib.Core.Path.{◌≡◌, refl, ap}
use universal_crossplane.Base.Results.{Error, Result, ok, err, panic, wrapped}

abbrev pub Eff : Type 0 → Type 0 → Type 0
Eff W A = W → Result A × W

module _ {W : Type 0} where
  abbrev pub after : {A B : Type 0} → (A → Eff W B) → Result A × W → Result B × W
  after f (ok a, w) = f a w
  after f (err e, w) = (err e, w)
  after f (panic, w) = (panic, w)

  infixl 5 ◌>>=◌ ◌>>◌
  abbrev pub ◌>>=◌ : {A B : Type 0} → Eff W A → (A → Eff W B) → Eff W B
  ◌>>=◌ m f w = after f (m w)

  abbrev pub ◌>>◌ : {A B : Type 0} → Eff W A → Eff W B → Eff W B
  m >> k = m >>= λ _. k

  abbrev pub pure : {A : Type 0} → A → Eff W A
  pure a w = (ok a, w)

  abbrev pub lift : {A : Type 0} → Result A → Eff W A
  lift x w = (x, w)

  abbrev pub gets : {A : Type 0} → (W → A) → Eff W A
  gets f w = (ok (f w), w)

  abbrev pub modify : (W → W) → Eff W (Unit {0})
  modify f w = (ok tt, f w)

  -- `errors.Wrap` on the error of a call that is returned at once.
  abbrev pub or_wrap : {A : Type 0} → String → Eff W A → Eff W A
  or_wrap msg m w = let (x, w') = m w in (wrapped msg x, w')

  pub err-ne-ok :
      {A : Type 0} {e : Error} {a : A} {w w' : W} → ◌≡◌ {A = Result A × W} (err e, w) (ok a, w') → ⊥
  err-ne-ok h = cc (ap (λ o. o.0) h)

  pub panic-ne-ok :
      {A : Type 0} {a : A} {w w' : W} → ◌≡◌ {A = Result A × W} (panic, w) (ok a, w') → ⊥
  panic-ne-ok h = cc (ap (λ o. o.0) h)

  after-eq-ok :
      {A B : Type 0} (o : Result A × W) (f : A → Eff W B) {b : B} {v : W}
      → after f o ≡ (ok b, v)
      → (a : A) × (w : W) × (o ≡ (ok a, w)) × (f a w ≡ (ok b, v))
  after-eq-ok (ok a, w) f h = (a, w, refl, h)
  after-eq-ok (err e, w) f h = absurd (err-ne-ok h)
  after-eq-ok (panic, w) f h = absurd (panic-ne-ok h)

  -- What a chain that returned has done on its way.
  pub >>=-eq-ok :
      {A B : Type 0} (m : Eff W A) (f : A → Eff W B) (u : W) {b : B} {v : W}
      → (m >>= f) u ≡ (ok b, v)
      → (a : A) × (w : W) × (m u ≡ (ok a, w)) × (f a w ≡ (ok b, v))
  >>=-eq-ok m f u h = after-eq-ok (m u) f h

  wrapped-eq-ok :
      {A : Type 0} (msg : String) (o : Result A × W) {a : A} {w : W}
      → ◌≡◌ {A = Result A × W} (wrapped msg o.0, o.1) (ok a, w)
      → o ≡ (ok a, w)
  wrapped-eq-ok msg (ok a, w) h = h
  wrapped-eq-ok msg (err e, w) h = absurd (err-ne-ok h)
  wrapped-eq-ok msg (panic, w) h = absurd (panic-ne-ok h)

  pub or_wrap-eq-ok :
      {A : Type 0} (msg : String) (m : Eff W A) (u : W) {a : A} {w : W}
      → or_wrap msg m u ≡ (ok a, w)
      → m u ≡ (ok a, w)
  or_wrap-eq-ok msg m u h = wrapped-eq-ok msg (m u) h

  -- The same for a chain that begins with a call whose error is wrapped.
  pub or_wrap->>=-eq-ok :
      {A B : Type 0} (msg : String) (m : Eff W A) (f : A → Eff W B) (u : W) {b : B} {v : W}
      → (or_wrap msg m >>= f) u ≡ (ok b, v)
      → (a : A) × (w : W) × (m u ≡ (ok a, w)) × (f a w ≡ (ok b, v))
  or_wrap->>=-eq-ok msg m f u h =
      let (a, w, called, rest) = >>=-eq-ok (or_wrap msg m) f u h in
      (a, w, or_wrap-eq-ok msg m u called, rest)

  -- The same for a chain that begins with a pure call.
  pub lift->>=-eq-ok :
      {A B : Type 0} (x : Result A) (f : A → Eff W B) (u : W) {b : B} {v : W}
      → (lift x >>= f) u ≡ (ok b, v)
      → (a : A) × (x ≡ ok a) × (f a u ≡ (ok b, v))
  lift->>=-eq-ok (ok a) f u h = (a, refl, h)
  lift->>=-eq-ok (err e) f u h = absurd (err-ne-ok h)
  lift->>=-eq-ok panic f u h = absurd (panic-ne-ok h)

  pub lift-eq-ok :
      {A : Type 0} (x : Result A) (u : W) {a : A} {v : W}
      → lift x u ≡ (ok a, v)
      → (x ≡ ok a) × (u ≡ v)
  lift-eq-ok x u h = (ap (λ o. o.0) h, ap (λ o. o.1) h)

  pub or_wrap-lift->>=-eq-ok :
      {A B : Type 0} (msg : String) (x : Result A) (f : A → Eff W B) (u : W) {b : B} {v : W}
      → (or_wrap msg (lift x) >>= f) u ≡ (ok b, v)
      → (a : A) × (x ≡ ok a) × (f a u ≡ (ok b, v))
  or_wrap-lift->>=-eq-ok msg (ok a) f u h = (a, refl, h)
  or_wrap-lift->>=-eq-ok msg (err e) f u h = absurd (err-ne-ok h)
  or_wrap-lift->>=-eq-ok msg panic f u h = absurd (panic-ne-ok h)
