-- ===== src/Base/Effects/Always.antt =====
-- What holds of the state after a call, whether it returned, failed or panicked.
use mathlib.Core.Path.{◌≡◌, refl}
use universal_crossplane.Base.Results.{Result, ok, err, panic}
use universal_crossplane.Base.Effects.{Eff, after, ◌>>=◌}

module _ {W : Type 0} where
  after-always :
      {A B : Type 0} (P F : W → Type 0) (o : Result A × W) (f : A → Eff W B)
      → P o.1
      → ((a : A) (w : W) → P w → F (f a w).1)
      → ((w : W) → P w → F w)
      → F (after f o).1
  after-always P F (ok a, w) f p rest stop = rest a w p
  after-always P F (err e, w) f p rest stop = stop w p
  after-always P F (panic, w) f p rest stop = stop w p

  -- A chain that goes on or stops after its first call.
  pub >>=-always :
      {A B : Type 0} (P F : W → Type 0) (m : Eff W A) (f : A → Eff W B) (w : W)
      → P (m w).1
      → ((a : A) (w : W) → P w → F (f a w).1)
      → ((w : W) → P w → F w)
      → F ((m >>= f) w).1
  >>=-always P F m f w p rest stop = after-always P F (m w) f p rest stop

  -- The same where the rest may use what the first call has returned.
  after-ensures :
      {A B : Type 0} (F : W → Type 0) (o : Result A × W) (f : A → Eff W B)
      → F o.1
      → ((a : A) (w : W) → o ≡ (ok a, w) → F (f a w).1)
      → F (after f o).1
  after-ensures F (ok a, w) f p rest = rest a w refl
  after-ensures F (err e, w) f p rest = p
  after-ensures F (panic, w) f p rest = p

  pub >>=-ensures :
      {A B : Type 0} (F : W → Type 0) (m : Eff W A) (f : A → Eff W B) (w : W)
      → F (m w).1
      → ((a : A) (v : W) → m w ≡ (ok a, v) → F (f a v).1)
      → F ((m >>= f) w).1
  >>=-ensures F m f w p rest = after-ensures F (m w) f p rest

  -- A call that keeps a property of the state whatever it returns.
  abbrev pub Keeps : {A : Type 0} → (W → Type 0) → Eff W A → Type 0
  Keeps P m = (w : W) → P w → P (m w).1

  pub >>=-Keeps :
      {A B : Type 0} (P : W → Type 0) (m : Eff W A) (f : A → Eff W B)
      → Keeps P m
      → ((a : A) → Keeps P (f a))
      → Keeps P (m >>= f)
  >>=-Keeps P m f first rest w p = >>=-always P P m f w (first w p) rest (λ w p. p)
