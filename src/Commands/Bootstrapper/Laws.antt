-- ===== src/Commands/Bootstrapper/Laws.antt =====
-- What has been set up when the manager starts.
use universal_crossplane.Base.{
  String, ◌≡◌, ◌≢◌, ap, inl, inr, List, [], ◌∷◌, errorf, Result, ok, err, panic, text-cases,
}
use universal_crossplane.Base.Effects.{
  >>=-eq-ok, or_wrap->>=-eq-ok, or_wrap-eq-ok, err-ne-ok, panic-ne-ok,
}
use universal_crossplane.Controllers.Manager.{Manager, ManagerOptions}
use universal_crossplane.Controllers.TlsSecrets.Setup.{setup}
use universal_crossplane.Controllers.Billing.Setup.{setup_aws_marketplace}
use universal_crossplane.Commands.Bootstrapper.{
  BootstrapCmd, wrapped_for, start_controller, start_controllers, main,
}

module _ (M : Manager) where
  open M use {World}

  -- The controllers are set up in the order of their names, from one world to another.
  pub data IsStarted : List String → World → World → Type 0 where
    nothing : {w : World} → IsStarted [] w w
    tls_secrets :
        {cs : List String} {w w1 w' : World}
        → setup M w ≡ (ok tt, w1)
        → IsStarted cs w1 w'
        → IsStarted ("tls-secrets" ∷ cs) w w'
    aws_marketplace :
        {cs : List String} {w w1 w' : World}
        → setup_aws_marketplace M w ≡ (ok tt, w1)
        → IsStarted cs w1 w'
        → IsStarted ("aws-marketplace" ∷ cs) w w'
    unknown :
        {c : String} {cs : List String} {w w' : World}
        → c ≢ "tls-secrets"
        → c ≢ "aws-marketplace"
        → IsStarted cs (M.report (errorf "unknown controller name: %s" (c ∷ [])) w) w'
        → IsStarted (c ∷ cs) w w'

  wrapped_for-eq_ok :
      (fmt c : String) (o : Result (Unit {0}) × World) {w : World}
      → wrapped_for M fmt c o ≡ (ok tt, w)
      → o ≡ (ok tt, w)
  wrapped_for-eq_ok fmt c (ok u, w) h = h
  wrapped_for-eq_ok fmt c (err e, w) h = absurd (err-ne-ok h)
  wrapped_for-eq_ok fmt c (panic, w) h = absurd (panic-ne-ok h)

  start_controllers-IsStarted :
      (cs : List String) (w w' : World) → start_controllers M cs w ≡ (ok tt, w') → IsStarted cs w w'
  unfolding start_controllers start_controller
  start_controllers-IsStarted [] w w' h = rw (ap (λ o. o.1) h) nothing
  start_controllers-IsStarted (c ∷ cs) w w' h =
      let (_, w1, started, rest) = >>=-eq-ok (start_controller M c) _ w h in
      let later = start_controllers-IsStarted cs w1 w' rest in
      elim (text-cases c "tls-secrets") [
        | inl (same, is) ↦
            rw is (tls_secrets (wrapped_for-eq_ok _ c (setup M w) (rw same at started)) later)
        | inr (other, ne) ↦ elim (text-cases c "aws-marketplace") [
          | inl (same, is) ↦ rw is (
              aws_marketplace
                (wrapped_for-eq_ok _ c (setup_aws_marketplace M w) (rw (other, same) at started))
                later)
          | inr (other', ne') ↦
              let reported = rw (other, other') at started in
              unknown ne ne' (rw (ap (λ o. o.1) reported) later)
        ]
      ]

  -- The bootstrapper ends without an error only after a manager for its namespace and sync period
  -- was created, every controller of its list was set up in order, unknown names being only
  -- reported, and the manager, started in the world after all that, has stopped without an error.
  pub main-IsStarted :
      (b : BootstrapCmd) (w w' : World)
      → main M b w ≡ (ok tt, w')
      → (cfg : M.RestConfig) × (w1 w2 w3 : World) × (M.new_manager cfg
            (record { sync_period = b.sync_period; namespace = b.namespace })
            w1
          ≡ (ok tt, w2))
        × IsStarted b.controllers w2 w3
        × (M.start w3 ≡ (ok tt, w'))
  unfolding main
  main-IsStarted b w w' h =
      let options : ManagerOptions = record {
        sync_period = b.sync_period;
        namespace = b.namespace;
      } in
      let (_, w0, _, rest1) = or_wrap->>=-eq-ok _ M.add_to_scheme _ w h in
      let (cfg, w1, _, rest2) = or_wrap->>=-eq-ok _ M.get_config _ w0 rest1 in
      let (_, w2, made, rest3) = or_wrap->>=-eq-ok _ (M.new_manager cfg options) _ w1 rest2 in
      let (_, w3, started, rest4) = >>=-eq-ok (start_controllers M b.controllers) _ w2 rest3 in
      (
        cfg,
        w1,
        w2,
        w3,
        made,
        start_controllers-IsStarted b.controllers w2 w3 started,
        or_wrap-eq-ok _ M.start w3 rest4,
      )
