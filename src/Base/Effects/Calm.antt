-- ===== src/Base/Effects/Calm.antt =====
-- Calls that do not panic.
use Prim.Native.String.{String}
use mathlib.Core.Path.{◌≡◌, refl}
use mathlib.Core.Logic.{◌≢◌}
use universal_crossplane.Base.Results.{Result, ok, err, panic, wrapped}
use universal_crossplane.Base.Results as Results
use universal_crossplane.Base.Effects.{Eff, after, ◌>>=◌, or_wrap}

pub wrapped-ne_panic :
    {A : Type 0} (msg : String) (x : Result A) → x ≢ panic → wrapped msg x ≢ panic
wrapped-ne_panic msg (ok a) calm h = cc h
wrapped-ne_panic msg (err e) calm h = cc h
wrapped-ne_panic msg panic calm h = calm refl

module _ {A B : Type 0} where
  pub bind-ne_panic :
      (x : Result A) (f : A → Result B)
      → x ≢ panic
      → ((a : A) → x ≡ ok a → f a ≢ panic)
      → (Results.◌>>=◌ x f) ≢ panic
  bind-ne_panic (ok a) f calm rest h = rest a refl h
  bind-ne_panic (err e) f calm rest h = cc h
  bind-ne_panic panic f calm rest h = calm refl

module _ {W : Type 0} where
  -- The outcome is not a panic.
  abbrev pub IsCalm : {A : Type 0} → Result A × W → Type 0
  IsCalm o = o.0 ≢ panic

  after-IsCalm :
      {A B : Type 0} (o : Result A × W) (f : A → Eff W B)
      → IsCalm o
      → ((a : A) (v : W) → o ≡ (ok a, v) → IsCalm (f a v))
      → IsCalm (after f o)
  after-IsCalm (ok a, w) f calm rest h = rest a w refl h
  after-IsCalm (err e, w) f calm rest h = cc h
  after-IsCalm (panic, w) f calm rest h = calm refl

  pub >>=-IsCalm :
      {A B : Type 0} (m : Eff W A) (f : A → Eff W B) (w : W)
      → IsCalm (m w)
      → ((a : A) (v : W) → m w ≡ (ok a, v) → IsCalm (f a v))
      → IsCalm ((m >>= f) w)
  >>=-IsCalm m f w calm rest = after-IsCalm (m w) f calm rest

  pub or_wrap-IsCalm :
      {A : Type 0} (msg : String) (m : Eff W A) (w : W) → IsCalm (m w) → IsCalm (or_wrap msg m w)
  or_wrap-IsCalm msg m w calm = wrapped-ne_panic msg (m w).0 calm
