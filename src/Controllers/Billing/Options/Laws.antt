-- ===== src/Controllers/Billing/Options/Laws.antt =====
-- Which registerer a new reconciler asks.
use universal_crossplane.Base.{◌≡◌, refl, ◌∙◌, List, [], ◌∷◌, ◌++◌, ok}
use universal_crossplane.Controllers.Kube.{NamespacedName, done}
use universal_crossplane.Controllers.Billing.Registerer.{Registerer, nop_registerer}
use universal_crossplane.Controllers.Billing.Marketplace.{Metering, marketplace_public_key}
use universal_crossplane.Controllers.Billing.Reconcile.{Reader}
use universal_crossplane.Controllers.Billing.Reconcile.Laws.{IsEntitledBy, reconcile-IsEntitledBy}
use universal_crossplane.Controllers.Billing.Options.{
  Reporting, Reconciler, ReconcilerOption, with_registerer, configured, new_reconciler,
  reconcile_with,
}
use universal_crossplane.Controllers.Billing.Setup.{marketplace_reconciler}

module _ (T : Reporting) (World : Type 0) where
  -- Options that leave the registerer as it is, as those of the logger and of the recorder do.
  pub data AreOthers : List (ReconcilerOption T World) → Type 0 where
    no_others : AreOthers []
    other :
        {f : ReconcilerOption T World} {opts : List (ReconcilerOption T World)}
        → ((r : Reconciler T World) → (f r).entitlement ≡ r.entitlement)
        → AreOthers opts
        → AreOthers (f ∷ opts)

  configured-others :
      {opts : List (ReconcilerOption T World)} (r : Reconciler T World)
      → AreOthers opts
      → (configured T World opts r).entitlement ≡ r.entitlement
  unfolding configured
  configured-others r no_others = refl
  configured-others r (other {f = f} keeps rest) = configured-others (f r) rest ∙ keeps r

  configured-last :
      (before : List (ReconcilerOption T World)) {later : List (ReconcilerOption T World)}
      (reg : Registerer World) (r : Reconciler T World)
      → AreOthers later
      → (configured T World (before ++ (with_registerer T World reg ∷ later)) r).entitlement ≡ reg
  unfolding configured
  configured-last [] reg r others = configured-others (with_registerer T World reg r) others
  configured-last (f ∷ before) reg r others = configured-last before reg (f r) others

  -- With options that do not set the registerer, a new reconciler asks the one that does nothing;
  -- where `WithRegisterer` stands before such options, after any others, it asks the registerer of
  -- that.
  pub new_reconciler-entitlement :
      (client : Reader World) (before later : List (ReconcilerOption T World))
      (reg : Registerer World)
      → AreOthers later
      → ((new_reconciler T World client later).entitlement ≡ nop_registerer)
        × ((new_reconciler T World client
              (before ++ (with_registerer T World reg ∷ later))).entitlement
            ≡ reg)
  unfolding new_reconciler
  new_reconciler-entitlement client before later reg others =
      (configured-others _ others, configured-last before reg _ others)

-- A reconciliation by the reconciler that `SetupAWSMarketplace` makes, that is done without a
-- retry, has read the entitlement secret of its namespace and the UID of kube-system, and has a
-- token that is the signature of that secret, or, where it has none, the one that was given without
-- an error for the product and that UID and stored in it; and the parser accepted that token under
-- the public key of AWS Marketplace without an error, with the product code, that UID as the nonce,
-- and the version of the key as its claims.
pub marketplace_reconciler-IsEntitledBy :
    (T : Reporting) (A : Metering) (client : Reader A.World) (log : T.Logger) (er : T.Recorder)
    (req : NamespacedName) (w w' : A.World)
    → reconcile_with T A.World (marketplace_reconciler T A client log er) req w ≡ (ok done, w')
    → IsEntitledBy A client marketplace_public_key req w
unfolding marketplace_reconciler new_reconciler
marketplace_reconciler-IsEntitledBy T A client log er req w w' h =
    reconcile-IsEntitledBy A client marketplace_public_key req w w' h
