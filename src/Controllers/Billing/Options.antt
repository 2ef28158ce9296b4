-- ===== src/Controllers/Billing/Options.antt =====
-- `Reconciler`, its options and `NewReconciler` of internal/controllers/billing/entitlement.go.
pub mod Laws
use universal_crossplane.Base.{List, [], ◌∷◌, Result}
use universal_crossplane.Controllers.Kube.{NamespacedName, ReconcileResult}
use universal_crossplane.Controllers.Billing.Registerer.{Registerer, nop_registerer}
use universal_crossplane.Controllers.Billing.Reconcile.{Reader, reconcile}

-- The loggers and the recorders of events, with those that do nothing.
pub record Reporting : Type 1 where
  pub Logger : Type 0
  pub Recorder : Type 0
  pub nop_logger : Logger
  pub nop_recorder : Recorder

module _ (T : Reporting) (World : Type 0) where
  -- `Reconciler`; the client is what it reads of the API server.
  pub record Reconciler : Type 0 where
    pub client : Reader World
    pub log : T.Logger
    pub recorder : T.Recorder
    pub entitlement : Registerer World

  -- An option changes the reconciler that it gets.
  abbrev pub ReconcilerOption : Type 0
  ReconcilerOption = Reconciler → Reconciler

  abbrev pub with_registerer : Registerer World → ReconcilerOption
  with_registerer reg r = record r { entitlement = reg }

  abbrev pub with_logger : T.Logger → ReconcilerOption
  with_logger log r = record r { log = log }

  abbrev pub with_recorder : T.Recorder → ReconcilerOption
  with_recorder er r = record r { recorder = er }

  -- The loop over the options.
  unfoldable pub configured : List ReconcilerOption → Reconciler → Reconciler
  configured [] r = r
  configured (f ∷ opts) r = configured opts (f r)

  unfoldable pub new_reconciler : Reader World → List ReconcilerOption → Reconciler
  unfolding configured
  new_reconciler client opts = configured opts (record {
    client = client;
    log = T.nop_logger;
    recorder = T.nop_recorder;
    entitlement = nop_registerer;
  })

  -- `Reconcile`, a method of the reconciler.
  abbrev pub reconcile_with : Reconciler → NamespacedName → World → Result ReconcileResult × World
  reconcile_with r = reconcile r.client r.entitlement
