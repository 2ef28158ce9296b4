-- ===== src/Controllers/TlsSecrets/Monad/Laws.antt =====
-- What a method that returned has done on its way.
pub use universal_crossplane.Base.Effects.{err-ne-ok, panic-ne-ok, >>=-eq-ok, or_wrap-eq-ok}
use universal_crossplane.Base.Effects.{◌>>=◌}
use universal_crossplane.Base.Effects.Returns.{Returns}
use universal_crossplane.Base.Effects.Always.{>>=-ensures}
use universal_crossplane.Base.Effects.Calm.{IsCalm}
use universal_crossplane.Base.{String, ◌≡◌, refl, sym, ap, Result, ok, err, panic}
use universal_crossplane.Controllers.Kube.{Secret}
use universal_crossplane.Controllers.TlsSecrets.Env.{Env, Event}
use universal_crossplane.Controllers.TlsSecrets.Monad.{
  Reconciler, M, effect, or_wrap, report, or_report,
}

abbrev pub Outcome : Env → Type 0 → Type 0
Outcome E A = Result A × Reconciler E

module _ {E : Env} where
  report-eq-ok :
      {A : Type 0} (s : Secret) (reason msg : String) (o : Outcome E A) {a : A} {r : Reconciler E}
      → report s reason msg o ≡ (ok a, r)
      → o ≡ (ok a, r)
  report-eq-ok s reason msg (ok a, r) h = h
  report-eq-ok s reason msg (err e, r) h = absurd (err-ne-ok h)
  report-eq-ok s reason msg (panic, r) h = absurd (panic-ne-ok h)

  pub or_report-eq-ok :
      {A : Type 0} (s : Secret) (reason msg : String) (m : M E A) (q : Reconciler E) {a : A}
      {r : Reconciler E}
      → or_report s reason msg m q ≡ (ok a, r)
      → m q ≡ (ok a, r)
  or_report-eq-ok s reason msg m q h = report-eq-ok s reason msg (m q) h

  -- An effect that succeeded, by its value and the world after it; the fields stay.
  pub effect-eq-ok :
      {A : Type 0} (f : E.World → Result A × E.World) (q : Reconciler E) {a : A} {r : Reconciler E}
      → effect f q ≡ (ok a, r)
      → (f q.world ≡ (ok a, r.world)) × (r.ca_cert ≡ q.ca_cert) × (r.ca_key ≡ q.ca_key)
  effect-eq-ok f q h =
      (λ i. ((h i).0, (h i).1.world), sym (ap (λ o. o.1.ca_cert) h), sym (ap (λ o. o.1.ca_key) h))

  pub or_wrap-effect-eq-ok :
      {A : Type 0} (msg : String) (f : E.World → Result A × E.World) (q : Reconciler E) {a : A}
      {r : Reconciler E}
      → or_wrap msg (effect f) q ≡ (ok a, r)
      → (f q.world ≡ (ok a, r.world)) × (r.ca_cert ≡ q.ca_cert) × (r.ca_key ≡ q.ca_key)
  or_wrap-effect-eq-ok msg f q h = effect-eq-ok f q (or_wrap-eq-ok msg (effect f) q h)

  report-always :
      {A : Type 0} (P : Reconciler E → Type 0) (s : Secret) (reason msg : String) (o : Outcome E A)
      → P o.1
      → ((r : Reconciler E) (e : Event) → P r → P (record r { world = E.record_event s e r.world }))
      → P (report s reason msg o).1
  report-always P s reason msg (ok a, r) p keep = p
  report-always P s reason msg (err e, r) p keep = keep r _ p
  report-always P s reason msg (panic, r) p keep = p

  -- What holds after a call and is kept by events holds after the call with its warning.
  pub or_report-always :
      {A : Type 0} (P : Reconciler E → Type 0) (s : Secret) (reason msg : String) (m : M E A)
      (q : Reconciler E)
      → P (m q).1
      → ((r : Reconciler E) (e : Event) → P r → P (record r { world = E.record_event s e r.world }))
      → P (or_report s reason msg m q).1
  or_report-always P s reason msg m q p keep = report-always P s reason msg (m q) p keep

  -- The same for a chain that starts with such a call.
  pub or_report->>=-always :
      {A B : Type 0} (P : Reconciler E → Type 0) (s : Secret) (reason msg : String) (m : M E A)
      (f : A → M E B) (q : Reconciler E)
      → ((r : Reconciler E) (e : Event) → P r → P (record r { world = E.record_event s e r.world }))
      → P (m q).1
      → ((a : A) (r : Reconciler E) → m q ≡ (ok a, r) → P (f a r).1)
      → P ((or_report s reason msg m >>= f) q).1
  or_report->>=-always P s reason msg m f q keep p rest =
      >>=-ensures P (or_report s reason msg m) f q (or_report-always P s reason msg m q p keep)
        (λ a r h. rest a r (or_report-eq-ok s reason msg m q h))

  report-Returns :
      {A : Type 0} (s : Secret) (reason msg : String) (o : Outcome E A)
      → Returns o
      → Returns (report s reason msg o)
  report-Returns s reason msg (ok a, r) h = h
  report-Returns s reason msg (err e, r) (a, h) = absurd (cc h)
  report-Returns s reason msg (panic, r) (a, h) = absurd (cc h)

  pub or_report-Returns :
      {A : Type 0} (s : Secret) (reason msg : String) (m : M E A) (q : Reconciler E)
      → Returns (m q)
      → Returns (or_report s reason msg m q)
  or_report-Returns s reason msg m q h = report-Returns s reason msg (m q) h

  report-IsCalm :
      {A : Type 0} (s : Secret) (reason msg : String) (o : Outcome E A)
      → IsCalm o
      → IsCalm (report s reason msg o)
  report-IsCalm s reason msg (ok a, r) calm h = cc h
  report-IsCalm s reason msg (err e, r) calm h = cc h
  report-IsCalm s reason msg (panic, r) calm h = calm refl

  pub or_report-IsCalm :
      {A : Type 0} (s : Secret) (reason msg : String) (m : M E A) (q : Reconciler E)
      → IsCalm (m q)
      → IsCalm (or_report s reason msg m q)
  or_report-IsCalm s reason msg m q calm = report-IsCalm s reason msg (m q) calm
