-- ===== src/Controllers/Billing/Setup.antt =====
-- `SetupAWSMarketplace` of internal/controllers/billing/setup.go.
use universal_crossplane.Base.{String, [], ◌∷◌, Bool, ◌==◌}
use universal_crossplane.Base.Effects.{Eff, ◌>>=◌, or_wrap}
use universal_crossplane.Controllers.Kube.{secret_name_entitlement}
use universal_crossplane.Controllers.Billing.Marketplace.{
  Metering, marketplace, marketplace_public_key,
}
use universal_crossplane.Controllers.Billing.Reconcile.{Reader}
use universal_crossplane.Controllers.Billing.Options.{
  Reporting, Reconciler, with_registerer, with_logger, with_recorder, new_reconciler,
}
use universal_crossplane.Controllers.Manager.{entitlement, Manager}

abbrev pub is_entitlement : String → Bool
is_entitlement name = name == secret_name_entitlement

-- The reconciler of the controller, with its logger, its recorder and the marketplace.
unfoldable pub marketplace_reconciler :
    (T : Reporting) (A : Metering) → Reader A.World → T.Logger → T.Recorder → Reconciler T A.World
unfolding new_reconciler
marketplace_reconciler T A client log er = new_reconciler T A.World client (
    with_logger T A.World log
    ∷ with_recorder T A.World er
    ∷ with_registerer T A.World (marketplace A marketplace_public_key)
    ∷ [])

unfoldable pub setup_aws_marketplace : (M : Manager) → Eff M.World (Unit {0})
setup_aws_marketplace M = do
  cfg ← or_wrap "cannot load default AWS config" M.load_default_config
  M.complete
      (record { name = "aws-marketplace"; passes = is_entitlement; reconciles = entitlement })
