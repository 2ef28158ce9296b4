-- ===== src/Controllers/Billing/Reconcile.antt =====
-- `Reconcile` of internal/controllers/billing/entitlement.go.
pub mod Laws
pub mod Repeat
pub mod Registrations
pub mod Histories
use universal_crossplane.Base.{
  ℕ, ◌*◌, String, Bool, true, false, Option, none, some, Error, wrap, Result, ok, err, panic,
  wrapped,
}
use universal_crossplane.Controllers.Kube.{
  NamespacedName, Secret, ReconcileResult, done, secret_name_entitlement,
}
use universal_crossplane.Controllers.Billing.Registerer.{Registered, Registerer}

abbrev pub err_get_secret : String
err_get_secret = "cannot get entitlement secret"

abbrev pub err_get_kubesystem_ns : String
err_get_kubesystem_ns = "cannot get kube-system namespace"

abbrev pub err_register : String
err_register = "cannot register entitlement"

abbrev pub err_verify : String
err_verify = "cannot verify signature"

-- The reads of the API server: a secret, and the UID of a namespace.
pub record Reader (World : Type 0) : Type 0 where
  pub get_secret : NamespacedName → World → Result Secret × World
  pub get_namespace_uid : String → World → Result String × World

-- One minute, in nanoseconds.
abbrev pub sync_period : ℕ
sync_period = 60 * 1000000000

-- What is read: the entitlement secret beside the request.
abbrev pub entitlement : NamespacedName → NamespacedName
entitlement req = record { namespace = req.namespace; name = secret_name_entitlement }

unfoldable pub finish : Result Bool → Result ReconcileResult
finish (ok true) = ok done
finish (ok false) = ok (record { requeue_after = sync_period })
finish (err e) = err (wrap e err_verify)
finish panic = panic

module _ {World : Type 0} (K : Reader World) (reg : Registerer World) where
  abbrev Outcome : Type 0
  Outcome = Result ReconcileResult × World

  -- What follows the registration.
  unfoldable pub verify_registered : Registered World → String → Option Error → Outcome
  unfolding finish
  verify_registered t uid (some e) = (err (wrap e err_register), t.world)
  verify_registered t uid none = (finish (reg.verify t.token uid), t.world)

  -- What follows the two reads.
  unfoldable pub with_uid : Secret → Result String → World → Outcome
  unfolding verify_registered
  with_uid s panic w = (panic, w)
  with_uid s (err e) w = (err (wrap e err_get_kubesystem_ns), w)
  with_uid s (ok uid) w = let t = reg.register s uid w in verify_registered t uid t.error

  unfoldable pub with_secret : Result Secret → World → Outcome
  unfolding with_uid
  with_secret panic w = (panic, w)
  with_secret (err e) w = (err (wrap e err_get_secret), w)
  with_secret (ok s) w = let (uid, w') = K.get_namespace_uid "kube-system" w in with_uid s uid w'

  unfoldable pub reconcile : NamespacedName → World → Outcome
  unfolding with_secret
  reconcile req w = let (s, w') = K.get_secret (entitlement req) w in with_secret s w'
