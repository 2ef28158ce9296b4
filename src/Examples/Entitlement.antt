-- ===== src/Examples/Entitlement.antt =====
-- Two reconciliations of the entitlement secret in a cluster that keeps it.
use universal_crossplane.Base.{
  ℕ, suc, ◌+◌, ◌≤◌, String, ◌≡◌, ◌≢◌, refl, sym, ap, ◌∙◌, true, false, none, some, [], ◌∷◌, ok,
  ◌==◌, eqb, inr, if◌then◌else◌,
}
use universal_crossplane.Base.Dict.{Dict}
use universal_crossplane.Jwt.{Claim, str, num}
use universal_crossplane.Controllers.Kube.{NamespacedName, Secret, key_of, done}
use universal_crossplane.Controllers.Billing.Marketplace.{
  Metering, marketplace, register, verify, marketplace_product_code, marketplace_public_key,
}
use universal_crossplane.Controllers.Billing.Reconcile.{Reader, reconcile}
use universal_crossplane.Controllers.Billing.Reconcile.Laws.{IsEntitledBy}
use universal_crossplane.Controllers.Billing.Reconcile.Repeat.{IsKept, reconcile_once}
use universal_crossplane.Controllers.Billing.Reconcile.Registrations.{IsCounted, HasSignature}
use universal_crossplane.Controllers.Billing.Reconcile.Histories.{
  History, begun, confirmed, unconfirmed, elapsed, History-calls,
}
use universal_crossplane.Controllers.Billing.Options.{Reporting, new_reconciler}
use universal_crossplane.Controllers.Billing.Options.Laws.{marketplace_reconciler-IsEntitledBy}
use universal_crossplane.Controllers.Billing.Setup.{marketplace_reconciler}
use universal_crossplane.Examples.Cluster.{
  Secrets, put, put_lem, named, named_key, found_of, found_of-ok, view,
}

-- The secrets, and the number of registrations.
record World : Type 0 where
  pub secrets : Secrets
  pub calls : ℕ

abbrev claims : Dict (Claim ℕ)
claims =
    ("productCode", str marketplace_product_code)
    ∷ ("nonce", str "uid")
    ∷ ("publicKeyVersion", num 1)
    ∷ []

abbrev metering : Metering
metering = record {
  World = World;
  PublicKey = String;
  Float = ℕ;
  float_of = λ n. n;
  float_eq = eqb;
  print = λ c. "";
  register_usage = λ u w. (inr "signed", record w { calls = suc w.calls });
  apply = λ s w. (none, record w { secrets = put (key_of s) s w.secrets });
  parse_rsa_public_key_from_pem = ok;
  parse_with_claims = λ t k.
      if t == "signed"
      then record { token = some true; claims = claims; error = none }
      else record { token = some false; claims = []; error = none };
}

abbrev reader : Reader World
reader = record {
  get_secret = λ n w. (found_of (named n (w.secrets n)), w);
  get_namespace_uid = λ n w. (ok "uid", w);
}

abbrev kept : IsKept metering reader
kept = record {
  stored = λ w. view w.secrets;
  get-ok = λ n w h.
      let found = found_of-ok (named n (w.secrets n)) (ap (λ o. o.0) h) in
      (found, named_key n (w.secrets n) found);
  get-stored = λ n w. refl;
  uid-stored = λ n w. refl;
  apply-ok = λ s w h.
      ap (λ o. view o.1.secrets (key_of s)) (sym h) ∙ (put_lem (key_of s) s w.secrets refl).0;
}

abbrev req : NamespacedName
req = record { namespace = "upbound-system"; name = "upbound-entitlement" }

abbrev secret : Secret
secret = record {
  namespace = "upbound-system";
  name = "upbound-entitlement";
  labels = [];
  type_of = "Opaque";
  contents = none;
}

abbrev signed : Secret
signed = record secret { contents = some (("awsMeteringSignature", "signed") ∷ []) }

abbrev world : World
world = record { secrets = put req secret (λ n. none); calls = 0 }

abbrev registered : World
registered = record { secrets = put req signed (put req secret (λ n. none)); calls = 1 }

-- The same secrets, at a later time.
abbrev later : World
later = record registered { calls = 7 }

done_run :
    reconcile reader (marketplace metering marketplace_public_key) req world ≡ (ok done, registered)
unfolding reconcile register verify
done_run = refl

no_empty : (metering.parse_with_claims "" (ok marketplace_public_key)).token ≢ some true
no_empty h = cc h

reconcile_once_example :
    reconcile reader (marketplace metering marketplace_public_key) req later ≡ (ok done, later)
reconcile_once_example =
    reconcile_once metering reader kept marketplace_public_key req world registered later later
      signed no_empty done_run refl refl refl

abbrev reporting : Reporting
reporting = record { Logger = String; Recorder = String; nop_logger = ""; nop_recorder = "" }

marketplace_reconciler-IsEntitledBy_example :
    IsEntitledBy metering reader marketplace_public_key req world
unfolding marketplace_reconciler new_reconciler
marketplace_reconciler-IsEntitledBy_example =
    marketplace_reconciler-IsEntitledBy reporting metering reader "log" "recorder" req world
      registered done_run

-- The first reconciliation finds no secret.
abbrev uninstalled : World
uninstalled = record { secrets = λ n. none; calls = 0 }

abbrev counted : IsCounted metering reader
counted = record {
  calls = λ w. w.calls;
  register-calls = λ u w. refl;
  apply-calls = λ s w. refl;
  get-calls = λ n w. refl;
  uid-calls = λ n w. refl;
}

failed_run :
    (reconcile reader (marketplace metering marketplace_public_key) req uninstalled).0 ≢ ok done
unfolding reconcile
failed_run h = cc h

again_run :
    reconcile reader (marketplace metering marketplace_public_key) req registered
    ≡ (ok done, registered)
unfolding reconcile register verify
again_run = refl

unsigned : HasSignature metering reader kept counted marketplace_public_key req uninstalled → ⊥
unsigned (s, there, given) = cc there

-- The secret is installed after a reconciliation that failed.
history : History metering reader kept counted marketplace_public_key req uninstalled 1 registered
unfolding reconcile
history =
    confirmed
      (elapsed registered
        (confirmed
          (elapsed world (unconfirmed begun failed_run) (λ signed. absurd (unsigned signed)) refl)
          done_run)
        (λ signed. refl) refl)
      again_run

History-calls_example : registered.calls ≤ suc (uninstalled.calls + 1)
History-calls_example =
    History-calls metering reader kept counted marketplace_public_key req 1 uninstalled registered
      no_empty history
