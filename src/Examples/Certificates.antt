-- ===== src/Examples/Certificates.antt =====
-- Runs of the reconciler of internal/controllers/tlssecrets in a cluster with an empty secret.
use universal_crossplane.Base.{String, ◌≡◌, ◌≢◌, refl, true, none, some, [], ◌∷◌, ok}
use universal_crossplane.Base.Dict.{Dict, lookup, get_text}
use universal_crossplane.Controllers.Kube.{NamespacedName, Secret, entries, done}
use universal_crossplane.Controllers.TlsSecrets.Env.{key_tls_cert, secret_name_ca}
use universal_crossplane.Controllers.TlsSecrets.Monad.{Reconciler, new_reconciler}
use universal_crossplane.Controllers.TlsSecrets.SecretData.{
  tls_secret_data_from_cert_and_key, cert_from_tls_secret_data,
}
use universal_crossplane.Controllers.TlsSecrets.SecretData.Laws.{
  cert_from_tls_secret_data-tls_secret_data,
}
use universal_crossplane.Controllers.TlsSecrets.Reconcile.{ca_name, create_or_load_ca, reconcile}
use universal_crossplane.Controllers.TlsSecrets.Reconcile.Authority.{HoldsAuthority}
use universal_crossplane.Controllers.TlsSecrets.Reconcile.Published.{IsIssued}
use universal_crossplane.Controllers.TlsSecrets.Reconcile.Certificate.{reconcile-IsIssued}
use universal_crossplane.Controllers.TlsSecrets.Setup.{watches}
use universal_crossplane.Examples.Cluster.{Secrets, put, env, cluster_lawful, cluster_store}

abbrev req : NamespacedName
req = record { namespace = "upbound-system"; name = "xgql-tls" }

abbrev blank : Secret
blank = record {
  namespace = "upbound-system";
  name = "xgql-tls";
  labels = [];
  type_of = "Opaque";
  contents = none;
}

abbrev start : Reconciler env
start = record { ca_cert = none; ca_key = none; world = put req blank (λ n. none) }

loaded : Reconciler env
unfolding create_or_load_ca
loaded = (create_or_load_ca env "upbound-system" start).1

issued : Reconciler env
unfolding reconcile
issued = (reconcile env req start).1

load_run : create_or_load_ca env "upbound-system" start ≡ (ok tt, loaded)
unfolding create_or_load_ca loaded
load_run = refl

reconcile_run : reconcile env req start ≡ (ok done, issued)
unfolding reconcile issued
reconcile_run = refl

empty_run : get_text key_tls_cert (entries blank.contents) ≡ ""
unfolding get_text lookup
empty_run = refl

req-ne : req.name ≢ secret_name_ca
req-ne h = cc

abbrev data_of : Dict String
data_of = ("tls.key", "Kk") ∷ ("tls.crt", "Pxgql") ∷ ("ca.crt", "Pupbound") ∷ []

data_run :
    tls_secret_data_from_cert_and_key env (some "xgql") (some "k") (some "upbound") ≡ ok data_of
unfolding tls_secret_data_from_cert_and_key
data_run = refl

cert_from_tls_secret_data-tls_secret_data_example :
    cert_from_tls_secret_data env data_of ≡ ok ("xgql", some "k", some "upbound")
cert_from_tls_secret_data-tls_secret_data_example =
    cert_from_tls_secret_data-tls_secret_data env cluster_lawful "xgql" (some "k") (some "upbound")
      data_of data_run

abbrev restarted : Secrets → Reconciler env
restarted w = new_reconciler env w

abbrev ca_secret : Secret
ca_secret = record {
  namespace = "upbound-system";
  name = "uxp-ca";
  labels = ("upbound.io/managed-by", "bootstrapper") ∷ [];
  type_of = "kubernetes.io/tls";
  contents = some (("tls.key", "Kk") ∷ ("tls.crt", "Pupbound") ∷ ("ca.crt", "Pupbound") ∷ []);
}

ca_run : (env.get_secret (ca_name "upbound-system") loaded.world).0 ≡ ok ca_secret
unfolding loaded
ca_run = refl

reconcile-IsIssued_example :
    IsIssued env cluster_lawful cluster_store req issued
    × HoldsAuthority env cluster_lawful cluster_store "upbound-system" issued
reconcile-IsIssued_example =
    reconcile-IsIssued env cluster_lawful cluster_store req blank start issued done req-ne refl
      empty_run reconcile_run

abbrev xgql_secret : Secret
xgql_secret = record {
  namespace = "upbound-system";
  name = "xgql-tls";
  labels = ("upbound.io/managed-by", "bootstrapper") ∷ [];
  type_of = "Opaque";
  contents =
      some (("tls.key", "Kk") ∷ ("tls.crt", "Pxgql by upbound") ∷ ("ca.crt", "Pupbound") ∷ []);
}

xgql_run : (env.get_secret req issued.world).0 ≡ ok xgql_secret
unfolding issued
xgql_run = refl

watches_run : watches "xgql-tls" ≡ true
unfolding watches
watches_run = refl

given_run : get_text key_tls_cert (entries xgql_secret.contents) ≢ ""
unfolding get_text lookup
given_run h = cc
