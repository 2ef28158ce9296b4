-- ===== src/Controllers/Billing/Reconcile/Histories.antt =====
-- How often a history of reconciliations registers the usage with AWS Marketplace.
use universal_crossplane.Base.{
  ℕ, zero, suc, ◌+◌, ◌≤◌, String, ◌≡◌, ◌≢◌, refl, sym, ap, ◌∙◌, ◌⊎◌, inl, inr, true, some, ok,
  arith,
}
use universal_crossplane.Controllers.Kube.{NamespacedName, done}
use universal_crossplane.Controllers.Billing.Marketplace.{Metering}
use universal_crossplane.Controllers.Billing.Marketplace.Laws.{parse}
use universal_crossplane.Controllers.Billing.Reconcile.{Reader, entitlement}
use universal_crossplane.Controllers.Billing.Reconcile.Repeat.{IsKept}
use universal_crossplane.Controllers.Billing.Reconcile.Registrations.{
  IsCounted, reconciled, HasSignature, Ends, Ends-calls, Ends-HasSignature, confirmed-HasSignature,
  reconcile-Ends,
}

module _ (A : Metering) (K : Reader A.World) (I : IsKept A K) (C : IsCounted A K)
    (public_key : String) (req : NamespacedName) where
  open I use {stored}
  open C use {calls}

  -- Reconciliations and time, with the number of the reconciliations that were not done without a
  -- retry. Nobody else registers the usage, or changes the entitlement secret once it has a
  -- signature.
  pub data History (w : A.World) : ℕ → A.World → Type 0 where
    begun : History w zero w
    confirmed :
        {n : ℕ} {v v' : A.World}
        → History w n v
        → reconciled A K I C public_key req v ≡ (ok done, v')
        → History w n v'
    unconfirmed :
        {n : ℕ} {v : A.World}
        → History w n v
        → (reconciled A K I C public_key req v).0 ≢ ok done
        → History w (suc n) (reconciled A K I C public_key req v).1
    elapsed :
        {n : ℕ} {v : A.World} (v' : A.World)
        → History w n v
        → (HasSignature A K I C public_key req v
            → stored v' (entitlement req) ≡ stored v (entitlement req))
        → calls v' ≡ calls v
        → History w n v'

  -- As long as no signature is known to be stored, every registration was part of a reconciliation
  -- that was not done; then there may be one more.
  abbrev Bounded : ℕ → A.World → A.World → Type 0
  Bounded n w v =
      (calls v ≤ calls w + n)
      ⊎ ((calls v ≤ suc (calls w + n)) × HasSignature A K I C public_key req v)

  HasSignature-same :
      {v v' : A.World}
      → stored v' (entitlement req) ≡ stored v (entitlement req)
      → HasSignature A K I C public_key req v
      → HasSignature A K I C public_key req v'
  HasSignature-same same (s, there, given) = (s, same ∙ there, given)

  History-Bounded :
      {w : A.World} {n : ℕ} {v : A.World}
      → (parse A public_key "").token ≢ some true
      → History w n v
      → Bounded n w v
  History-Bounded no_empty begun = inl (omega arith)
  History-Bounded no_empty (confirmed {v = v} {v' = v'} before h) =
      let ends : Ends A K I C public_key req v v' =
        rw (ap (λ o. o.1) h) at (reconcile-Ends A K I C public_key req v) in
      let has = confirmed-HasSignature A K I C public_key req v v' no_empty h in
      elim (History-Bounded no_empty before) [
        | inl few ↦ let more = Ends-calls A K I C public_key req ends in inr (omega arith, has)
        | inr (few, signed) ↦
            let same = (Ends-HasSignature A K I C public_key req ends signed).1 in
            inr (omega arith, has)
      ]
  History-Bounded no_empty (unconfirmed {v = v} before h) = elim (History-Bounded no_empty before) [
    | inl few ↦
        let more = Ends-calls A K I C public_key req (reconcile-Ends A K I C public_key req v) in
        inl (omega arith)
    | inr (few, signed) ↦
        let (kept, same) =
          Ends-HasSignature A K I C public_key req (reconcile-Ends A K I C public_key req v)
            signed in
        inl (omega arith)
  ]
  History-Bounded no_empty (elapsed v' before kept same) = elim (History-Bounded no_empty before) [
    | inl few ↦ inl (omega arith)
    | inr (few, signed) ↦ inr (omega arith, HasSignature-same (kept signed) signed)
  ]

  -- A history that begins with a signature leaves the secret, and registers nothing.
  pub History-HasSignature :
      {w : A.World} {n : ℕ} {v : A.World}
      → HasSignature A K I C public_key req w
      → History w n v
      → (stored v (entitlement req) ≡ stored w (entitlement req)) × (calls v ≡ calls w)
  History-HasSignature has begun = (refl, refl)
  History-HasSignature has (confirmed {v = v} before h) =
      let (kept, same) = History-HasSignature has before in
      let (kept', same') =
        Ends-HasSignature A K I C public_key req (reconcile-Ends A K I C public_key req v)
          (HasSignature-same kept has) in
      (
        ap (λ o. stored o.1 (entitlement req)) (sym h) ∙ ap (λ f. f (entitlement req)) kept' ∙ kept,
        ap (λ o. calls o.1) (sym h) ∙ same' ∙ same,
      )
  History-HasSignature has (unconfirmed {v = v} before h) =
      let (kept, same) = History-HasSignature has before in
      let (kept', same') =
        Ends-HasSignature A K I C public_key req (reconcile-Ends A K I C public_key req v)
          (HasSignature-same kept has) in
      (ap (λ f. f (entitlement req)) kept' ∙ kept, same' ∙ same)
  History-HasSignature has (elapsed v' before kept same) =
      let (kept', same') = History-HasSignature has before in
      (kept (HasSignature-same kept' has) ∙ kept', same ∙ same')

  -- With AWS Marketplace as the registerer, an API server that keeps the applied secret, a metering
  -- service whose calls are counted, and a parser that does not take the empty token as valid: in
  -- any history of reconciliations and of time in which nobody else registers the usage, or changes
  -- the entitlement secret once it has a signature, the usage is registered at most once more than
  -- there are reconciliations that were not done without a retry.
  pub History-calls :
      (n : ℕ) (w v : A.World)
      → (parse A public_key "").token ≢ some true
      → History w n v
      → calls v ≤ suc (calls w + n)
  History-calls n w v no_empty history = elim (History-Bounded no_empty history) [
    | inl few ↦ omega arith
    | inr (few, signed) ↦ few
  ]
