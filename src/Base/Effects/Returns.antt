-- ===== src/Base/Effects/Returns.antt =====
-- Calls that return a value.
use Prim.Native.String.{String}
use mathlib.Core.Path.{◌≡◌, refl, ap}
use universal_crossplane.Base.Results.{Result, ok, err, panic, wrapped}
use universal_crossplane.Base.Effects.{Eff, after, ◌>>=◌, or_wrap}

module _ {W : Type 0} where
  -- The outcome is this value.
  abbrev pub Gives : {A : Type 0} → A → Result A × W → Type 0
  Gives a o = o.0 ≡ ok a

  abbrev pub Returns : {A : Type 0} → Result A × W → Type 0
  Returns {A = A} o = (a : A) × Gives a o

  after-Gives :
      {A B : Type 0} {b : B} (o : Result A × W) (f : A → Eff W B)
      → Returns o
      → ((a : A) (v : W) → o ≡ (ok a, v) → Gives b (f a v))
      → Gives b (after f o)
  after-Gives (ok a, w) f returned rest = rest a w refl
  after-Gives (err e, w) f (a, h) rest = absurd (cc h)
  after-Gives (panic, w) f (a, h) rest = absurd (cc h)

  pub >>=-Gives :
      {A B : Type 0} {b : B} (m : Eff W A) (f : A → Eff W B) (w : W)
      → Returns (m w)
      → ((a : A) (v : W) → m w ≡ (ok a, v) → Gives b (f a v))
      → Gives b ((m >>= f) w)
  >>=-Gives m f w returned rest = after-Gives (m w) f returned rest

  after-Returns :
      {A B : Type 0} (o : Result A × W) (f : A → Eff W B)
      → Returns o
      → ((a : A) (v : W) → o ≡ (ok a, v) → Returns (f a v))
      → Returns (after f o)
  after-Returns (ok a, w) f returned rest = rest a w refl
  after-Returns (err e, w) f (a, h) rest = absurd (cc h)
  after-Returns (panic, w) f (a, h) rest = absurd (cc h)

  pub >>=-Returns :
      {A B : Type 0} (m : Eff W A) (f : A → Eff W B) (w : W)
      → Returns (m w)
      → ((a : A) (v : W) → m w ≡ (ok a, v) → Returns (f a v))
      → Returns ((m >>= f) w)
  >>=-Returns m f w returned rest = after-Returns (m w) f returned rest

  pub or_wrap-Gives :
      {A : Type 0} {a : A} (msg : String) (m : Eff W A) (w : W)
      → Gives a (m w)
      → Gives a (or_wrap msg m w)
  or_wrap-Gives msg m w h = ap (λ x. wrapped msg x) h

  pub or_wrap-Returns :
      {A : Type 0} (msg : String) (m : Eff W A) (w : W) → Returns (m w) → Returns (or_wrap msg m w)
  or_wrap-Returns msg m w (a, h) = (a, or_wrap-Gives msg m w h)
