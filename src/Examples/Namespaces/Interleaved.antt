-- ===== src/Examples/Namespaces/Interleaved.antt =====
-- Two reconcilers that issue a certificate for xgql at once, after one for the gateway was issued.
use universal_crossplane.Base.{String, ◌≡◌, refl, some, [], ◌∷◌, ok}
use universal_crossplane.Base.Dict.{lookup, get_text}
use universal_crossplane.Controllers.Kube.{Secret, entries}
use universal_crossplane.Controllers.TlsSecrets.Env.{key_tls_cert}
use universal_crossplane.Controllers.TlsSecrets.Monad.{Reconciler}
use universal_crossplane.Controllers.TlsSecrets.SecretData.{cert_from_tls_secret_data}
use universal_crossplane.Controllers.TlsSecrets.Reconcile.{
  ca_name, load_or_generate, issue, reconcile,
}
use universal_crossplane.Controllers.TlsSecrets.Reconcile.Authority.{IsAuthority}
use universal_crossplane.Controllers.TlsSecrets.Cluster.{at, IsBacked}
use universal_crossplane.Controllers.TlsSecrets.Cluster.Stable.{IsSound}
use universal_crossplane.Controllers.TlsSecrets.Cluster.Histories.{
  Steps-IsSound, start, after, reconciled,
}
use universal_crossplane.Controllers.TlsSecrets.Cluster.Interleaving as Interleaving
use universal_crossplane.Controllers.TlsSecrets.Cluster.Interleaving.{State, moved}
use universal_crossplane.Controllers.TlsSecrets.Cluster.Coherence.{interleaving-IsBacked}
use universal_crossplane.Examples.Cluster.{
  Secrets, view, env, cluster_lawful, cluster_store, cluster-IsAtomic,
}
use universal_crossplane.Examples.Namespaces.{
  ns, installed, first, blank, fresh, gateway_watched, xgql_watched, xgql_secret, xgql_given,
}

abbrev cas : Secret
cas = record {
  namespace = ns;
  name = "uxp-ca";
  labels = ("upbound.io/managed-by", "bootstrapper") ∷ [];
  type_of = "kubernetes.io/tls";
  contents = some (("tls.key", "Kk") ∷ ("tls.crt", "Pupbound") ∷ ("ca.crt", "Pupbound") ∷ []);
}

authority : IsAuthority env cas "upbound" "k"
unfolding cert_from_tls_secret_data lookup get_text
authority = record { ca = some "upbound"; readable = refl; has_key = λ h. cc h }

saved : view first.world (ca_name ns) ≡ some cas
unfolding first
saved = refl

sound : IsSound env cluster_store ns (view first.world)
unfolding first
sound =
    Steps-IsSound env cluster_store ns cluster_lawful cluster-IsAtomic
      (after (start installed) (reconciled "upbound-agent-tls" installed gateway_watched))
      (λ other t watched there has_cert. absurd (has_cert (fresh other watched t there)))

abbrev begun : State env
begun = record { locals = λ i. Interleaving.idle; world = first.world }

abbrev xgql : String
xgql = "xgql-tls"

abbrev holder : Secrets → Reconciler env
holder w = record { ca_cert = some "upbound"; ca_key = some "k"; world = w }

-- Both have read the blank secret, both have asked for the authority, and both have loaded it.
abbrev both_found : State env
both_found =
    moved env (moved env begun 0 (Interleaving.found xgql (blank xgql)) first.world) 1
      (Interleaving.found xgql (blank xgql)) first.world

abbrev both_asked : State env
both_asked =
    moved env (moved env both_found 0 (Interleaving.asked xgql (blank xgql) (ok cas)) first.world) 1
      (Interleaving.asked xgql (blank xgql) (ok cas)) first.world

abbrev both_loaded : State env
both_loaded =
    moved env
      (moved env both_asked 0 (Interleaving.loaded xgql (blank xgql) (some "upbound") (some "k"))
        first.world)
      1 (Interleaving.loaded xgql (blank xgql) (some "upbound") (some "k")) first.world

abbrev issued_once : State env
issued_once =
    moved env both_loaded 0 Interleaving.idle
      (issue env (at ns xgql) (blank xgql) (some "upbound") (some "k") (holder first.world)).1.world

abbrev issued_twice : State env
issued_twice =
    moved env issued_once 1 Interleaving.idle
      (issue env (at ns xgql) (blank xgql) (some "upbound") (some "k")
        (holder issued_once.world)).1.world

xgql_blank : get_text key_tls_cert (entries (blank xgql).contents) ≡ ""
unfolding get_text lookup
xgql_blank = refl

found_steps : Interleaving.Steps env cluster_store ns begun both_found
unfolding first
found_steps =
    Interleaving.after
      (Interleaving.after Interleaving.start
        (Interleaving.reads 0 xgql (blank xgql) refl xgql_watched refl xgql_blank))
      (Interleaving.reads 1 xgql (blank xgql) refl xgql_watched refl xgql_blank)

asked_steps : Interleaving.Steps env cluster_store ns begun both_asked
unfolding first
asked_steps =
    Interleaving.cached_asks 1 xgql (blank xgql) found_steps
      (Interleaving.after found_steps (Interleaving.asks 0 xgql (blank xgql) refl)) refl

loaded_steps : Interleaving.Steps env cluster_store ns begun both_loaded
unfolding load_or_generate
loaded_steps =
    Interleaving.after
      (Interleaving.after asked_steps
        (Interleaving.loads 0 xgql (blank xgql) (ok cas) (holder first.world) refl refl refl))
      (Interleaving.loads 1 xgql (blank xgql) (ok cas) (holder first.world) refl refl refl)

issued_steps : Interleaving.Steps env cluster_store ns begun issued_twice
issued_steps =
    Interleaving.after
      (Interleaving.after loaded_steps
        (Interleaving.issues 0 xgql (blank xgql) (holder first.world) refl refl))
      (Interleaving.issues 1 xgql (blank xgql) (holder issued_once.world) refl refl)

issued_there : view issued_twice.world (at ns xgql) ≡ some xgql_secret
unfolding first reconcile
issued_there = refl

interleaving-IsBacked_example :
    (view issued_twice.world (ca_name ns) ≡ some cas)
    × IsBacked env cluster_store ns xgql (view issued_twice.world) xgql_secret
interleaving-IsBacked_example =
    interleaving-IsBacked env cluster_store ns cluster_lawful cluster-IsAtomic authority begun
      issued_twice xgql xgql_secret saved sound (λ i. refl) issued_steps xgql_watched issued_there
      xgql_given
