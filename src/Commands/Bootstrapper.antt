-- ===== src/Commands/Bootstrapper.antt =====
-- cmd/bootstrapper/main.go: the start of the controllers.
pub mod Laws
use universal_crossplane.Base.{
  ℕ, String, Bool, true, false, List, [], ◌∷◌, Error, errorf, wrapf, Result, ok, err, panic, ◌==◌,
  if◌then◌else◌,
}
use universal_crossplane.Base.Effects.{Eff, ◌>>=◌, ◌>>◌, pure, or_wrap}
use universal_crossplane.Controllers.Manager.{Manager, ManagerOptions}
use universal_crossplane.Controllers.TlsSecrets.Setup.{setup}
use universal_crossplane.Controllers.Billing.Setup.{setup_aws_marketplace}

-- `BootstrapCmd`
pub record BootstrapCmd : Type 0 where
  pub sync_period : ℕ
  pub namespace : String
  pub upbound_api_url : String
  pub controllers : List String

module _ (M : Manager) where
  open M use {World}

  abbrev wrapped_for : String → String → Result (Unit {0}) × World → Result (Unit {0}) × World
  wrapped_for fmt c (ok u, w) = (ok u, w)
  wrapped_for fmt c (err e, w) = (err (wrapf e fmt (c ∷ [])), w)
  wrapped_for fmt c (panic, w) = (panic, w)

  -- One round of the loop: an error is fatal, and an unknown name is only reported.
  unfoldable pub start_controller : String → Eff World (Unit {0})
  unfolding setup setup_aws_marketplace
  start_controller c w =
      if c == "tls-secrets"
      then wrapped_for "cannot start %s controller" c (setup M w)
      else if c == "aws-marketplace"
      then wrapped_for "cannot setup %s controller" c (setup_aws_marketplace M w)
      else (ok tt, M.report (errorf "unknown controller name: %s" (c ∷ [])) w)

  unfoldable pub start_controllers : List String → Eff World (Unit {0})
  unfolding start_controller
  start_controllers [] = pure tt
  start_controllers (c ∷ cs) = start_controller c >> start_controllers cs

  -- `main`; `ok` is a manager that has stopped without an error.
  unfoldable pub main : BootstrapCmd → Eff World (Unit {0})
  unfolding start_controllers
  main b = do
    or_wrap "cannot add client-go scheme" M.add_to_scheme
    cfg ← or_wrap "cannot get config" M.get_config
    or_wrap "cannot create manager"
        (M.new_manager cfg (record { sync_period = b.sync_period; namespace = b.namespace }))
    start_controllers b.controllers
    or_wrap "cannot start controller manager" M.start
