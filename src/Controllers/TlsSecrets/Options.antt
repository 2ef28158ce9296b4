-- ===== src/Controllers/TlsSecrets/Options.antt =====
-- `Reconciler`, its options and `NewReconciler` of internal/controllers/tlssecrets/reconciler.go.
use universal_crossplane.Base.{
  ◌<>◌, ◌≡◌, ◌≢◌, refl, inl, inr, Option, none, List, [], ◌∷◌, Result, ok, text-cases,
}
use universal_crossplane.Base.Dict.{get_text}
use universal_crossplane.Controllers.Kube.{NamespacedName, Secret, entries, ReconcileResult, done}
use universal_crossplane.Controllers.TlsSecrets.Env.{Env, Event, normal, key_tls_cert, reason_sync}
use universal_crossplane.Controllers.TlsSecrets.Monad
use universal_crossplane.Controllers.TlsSecrets.Reconcile.{reconcile}

-- `event.Recorder`; what it records is in the world.
abbrev pub Recorder : Env → Type 0
Recorder E = Secret → Event → E.World → E.World

abbrev pub nop_recorder : (E : Env) → Recorder E
nop_recorder E s e w = w

module _ (E : Env) (Logger : Type 0) where
  -- `Reconciler`; its client is that of the environment.
  pub record Reconciler : Type 0 where
    pub log : Logger
    pub recorder : Recorder E
    pub ca_cert : Option E.Certificate
    pub ca_key : Option E.Signer

  -- An option changes the reconciler that it gets.
  abbrev pub ReconcilerOption : Type 0
  ReconcilerOption = Reconciler → Reconciler

  abbrev pub with_logger : Logger → ReconcilerOption
  with_logger log r = record r { log = log }

  abbrev pub with_recorder : Recorder E → ReconcilerOption
  with_recorder er r = record r { recorder = er }

  -- The loop over the options.
  unfoldable pub configured : List ReconcilerOption → Reconciler → Reconciler
  configured [] r = r
  configured (f ∷ opts) r = configured opts (f r)

  unfoldable pub new_reconciler : Logger → List ReconcilerOption → Reconciler
  unfolding configured
  new_reconciler nop_logger opts =
      configured opts
        (record { log = nop_logger; recorder = nop_recorder E; ca_cert = none; ca_key = none })

  -- The reconciler that `Setup` makes.
  unfoldable pub tls_reconciler : Logger → Logger → Recorder E → Reconciler
  unfolding new_reconciler
  tls_reconciler nop_logger log er =
      new_reconciler nop_logger (with_logger log ∷ with_recorder er ∷ [])

  -- The environment in which its events are recorded.
  abbrev pub env_of : Reconciler → Env
  env_of r = record E { record_event = r.recorder }

  -- `Reconcile`, a method of the reconciler.
  abbrev pub reconcile_with :
      (r : Reconciler) (req : NamespacedName) (w : E.World)
      → Result ReconcileResult × Monad.Reconciler (env_of r)
  reconcile_with r req w =
      reconcile (env_of r) req (record { ca_cert = r.ca_cert; ca_key = r.ca_key; world = w })

  -- What is recorded for a secret with a certificate.
  abbrev pub synced : NamespacedName → Event
  synced req = record {
    event_type = normal;
    reason = reason_sync;
    message = "Secret " <> req.name <> " already contains certificate, skipping generation";
    cause = none;
  }

  -- A reconciliation by the reconciler that `Setup` makes, whose read finds a secret with a
  -- certificate, records just that; one by a reconciler without options records nothing.
  pub reconcile_with-synced :
      (nop_logger log : Logger) (er : Recorder E) (req : NamespacedName) (w w' : E.World)
      (s : Secret)
      → E.get_secret req w ≡ (ok s, w')
      → get_text key_tls_cert (entries s.contents) ≢ ""
      → (reconcile_with (tls_reconciler nop_logger log er) req w
          ≡ (ok done, record { ca_cert = none; ca_key = none; world = er s (synced req) w' }))
        × (reconcile_with (new_reconciler nop_logger []) req w
            ≡ (ok done, record { ca_cert = none; ca_key = none; world = w' }))
  unfolding tls_reconciler new_reconciler reconcile
  reconcile_with-synced nop_logger log er req w w' s found given =
      elim (text-cases (get_text key_tls_cert (entries s.contents)) "") [
        | inl (_, empty) ↦ absurd (given empty)
        | inr (other, _) ↦ rw (found, other) (refl, refl)
      ]
