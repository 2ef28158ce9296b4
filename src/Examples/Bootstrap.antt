-- ===== src/Examples/Bootstrap.antt =====
-- A start of the bootstrapper whose world lists the controllers that were added.
use universal_crossplane.Base.{String, ◌≡◌, refl, List, [], ◌∷◌, ◌++◌, ok}
use universal_crossplane.Controllers.Manager.{Manager}
use universal_crossplane.Commands.Bootstrapper.{BootstrapCmd, main}
use universal_crossplane.Commands.Bootstrapper.Laws.{IsStarted, main-IsStarted}

abbrev manager : Manager
manager = record {
  World = List String;
  RestConfig = String;
  AwsConfig = String;
  add_to_scheme = λ w. (ok tt, w);
  get_config = λ w. (ok "kube", w);
  new_manager = λ c o w. (ok tt, w);
  load_default_config = λ w. (ok "aws", w);
  complete = λ c w. (ok tt, w ++ (c.name ∷ []));
  report = λ e w. w ++ ("unknown" ∷ []);
  start = λ w. (ok tt, w);
}

abbrev cmd : BootstrapCmd
cmd = record {
  sync_period = 600000000000;
  namespace = "upbound-system";
  upbound_api_url = "https://api.upbound.io";
  controllers = "tls-secrets" ∷ "none" ∷ "aws-marketplace" ∷ [];
}

abbrev added : List String
added = "tlsSecretGeneration" ∷ "unknown" ∷ "aws-marketplace" ∷ []

main_run : main manager cmd [] ≡ (ok tt, added)
unfolding main
main_run = refl

main-IsStarted_example :
    (cfg : String) × (w1 w2 w3 : List String) × (manager.new_manager cfg
        (record { sync_period = cmd.sync_period; namespace = cmd.namespace })
        w1
      ≡ (ok tt, w2))
    × IsStarted manager cmd.controllers w2 w3
    × (manager.start w3 ≡ (ok tt, added))
main-IsStarted_example = main-IsStarted manager cmd [] added main_run
