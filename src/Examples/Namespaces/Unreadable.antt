-- ===== src/Examples/Namespaces/Unreadable.antt =====
-- A namespace whose authority has a key and no certificate.
use Prim.Native.String.{[], ◌∷◌}
use universal_crossplane.Base.{
  String, ◌≡◌, ◌≢◌, refl, sym, ◌∙◌, inl, inr, Option, none, some, [], ◌∷◌, new, wrap, Result, ok,
  err, panic, Bool-cases,
}
use universal_crossplane.Controllers.Kube.{NamespacedName, Secret, key_of}
use universal_crossplane.Controllers.TlsSecrets.Monad.{Reconciler}
use universal_crossplane.Controllers.TlsSecrets.Calm.{IsCalmEnv}
use universal_crossplane.Controllers.TlsSecrets.Reconcile.{reconcile, ca_name}
use universal_crossplane.Controllers.TlsSecrets.Reconcile.Calm.{reconcile-IsCalm}
use universal_crossplane.Controllers.TlsSecrets.Cluster.{at}
use universal_crossplane.Examples.Cluster.{
  Secrets, same, put, found_of, create, pem_body, certs_of, drawn, drawn_works, env, cluster_lawful,
  cluster_store,
}
use universal_crossplane.Examples.Namespaces.{ns, blank, installed, xgql_watched}

abbrev unreadable : Secret
unreadable = record (blank "uxp-ca") { contents = some (("tls.key", "Kk") ∷ []) }

abbrev broken : Reconciler env
broken = record installed { world = put (ca_name ns) unreadable installed.world }

ok-ne_panic : {A : Type 0} (x : Result A) {a : A} → x ≡ ok a → x ≢ panic
ok-ne_panic x same h = cc (sym same ∙ h)

found_of-ne_panic : (o : Option Secret) → found_of o ≢ panic
found_of-ne_panic none h = cc h
found_of-ne_panic (some s) h = cc h

pem_body-ne_panic : (s : String) → pem_body s ≢ panic
pem_body-ne_panic [] h = cc h
pem_body-ne_panic (c ∷ s) h = cc h

certs_of-ne_panic : (s : String) → (certs_of s ≢ panic) × (certs_of s ≢ ok [])
certs_of-ne_panic [] = (λ h. cc h, λ h. cc h)
certs_of-ne_panic (c ∷ s) = (λ h. cc h, λ h. cc h)

create-ne_panic : (n : NamespacedName) (t : Secret) (w : Secrets) → (create n t w).0 ≢ panic
create-ne_panic n t w = elim (Bool-cases (same (key_of t) n)) [
  | inl kept ↦ rw kept (λ h. cc h)
  | inr changed ↦ rw changed (λ h. cc h)
]

calm : IsCalmEnv env
calm = record {
  generate_key = λ n w h. cc h;
  rand_int = λ n w pos. ok-ne_panic (drawn n) (drawn_works n pos).1;
  new_self_signed_ca_cert = λ c k w h. cc h;
  create_certificate = λ t c p k w h. cc h;
  parse_certificate = λ s h. cc h;
  marshal_private_key_to_pem = λ k h. cc h;
  parse_private_key_pem = pem_body-ne_panic;
  parse_certs_pem = λ s. (certs_of-ne_panic s).0;
  parse_certs_pem-some = λ s. (certs_of-ne_panic s).1;
  get_secret = λ n w. found_of-ne_panic _;
  update_secret = λ s w h. cc h;
  create_or_update = λ s f w. create-ne_panic (key_of s) _ w;
}

broken_run :
    (reconcile env (at ns "xgql-tls") broken).0
    ≡ err (
        wrap
          (wrap
            (new "could not find key tls.crt in ca secret")
            "failed to parts existing ca secret")
          "failed to initialize ca")
unfolding reconcile
broken_run = refl

reconcile-IsCalm_example : (reconcile env (at ns "xgql-tls") broken).0 ≢ panic
reconcile-IsCalm_example =
    reconcile-IsCalm env calm cluster_lawful cluster_store ns "xgql-tls" xgql_watched broken
