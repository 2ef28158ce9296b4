-- ===== src/Examples/Namespaces.antt =====
-- Histories of a namespace with the two secrets of an installation.
mod Servers
mod Converged
mod Unreadable
mod Interleaved
use mathlib.Core.Option.{some-injective}
use universal_crossplane.Base.{
  err, true, String, ◌≡◌, ◌≢◌, refl, ap, none, some, Option, [], ◌∷◌, ok, inl, inr,
}
use universal_crossplane.Base.Dict.{lookup, get_text}
use universal_crossplane.Controllers.Kube.{Secret, entries, done}
use universal_crossplane.Controllers.TlsSecrets.Env.{key_tls_cert}
use universal_crossplane.Controllers.TlsSecrets.Monad.{Reconciler, new_reconciler}
use universal_crossplane.Controllers.TlsSecrets.Setup.{watches, watches-cases}
use universal_crossplane.Controllers.TlsSecrets.Reconcile.{ca_name, load_or_generate, reconcile}
use universal_crossplane.Controllers.TlsSecrets.Reconcile.Progress.{reconcile_progress}
use universal_crossplane.Controllers.TlsSecrets.Cluster.{at, IsBacked, Refines}
use universal_crossplane.Controllers.TlsSecrets.Cluster.Refinement.{reconcile-Refines}
use universal_crossplane.Controllers.TlsSecrets.Cluster.Stable.{HasCert}
use universal_crossplane.Controllers.TlsSecrets.Cluster.Conflict.{load_or_generate-conflict}
use universal_crossplane.Controllers.TlsSecrets.Cluster.Histories.{
  Steps, start, after, reconciled, restarted, ShareAuthority, IsFresh, history-IsBacked,
  history-ShareAuthority, reconcile-kept,
}
use universal_crossplane.Examples.Cluster.{
  not_found, put, view, env, cluster_lawful, cluster_store, cluster-IsAtomic,
}
use universal_crossplane.Examples.Cluster.Healthy.{cluster-IsHealthy}

abbrev ns : String
ns = "upbound-system"

abbrev blank : String → Secret
blank name = record {
  namespace = ns;
  name = name;
  labels = [];
  type_of = "Opaque";
  contents = none;
}

abbrev with_cert : String → String → Secret
with_cert name cert = record {
  namespace = ns;
  name = name;
  labels = ("upbound.io/managed-by", "bootstrapper") ∷ [];
  type_of = "Opaque";
  contents = some (("tls.key", "Kk") ∷ ("tls.crt", cert) ∷ ("ca.crt", "Pupbound") ∷ []);
}

abbrev gateway_secret : Secret
gateway_secret = with_cert "upbound-agent-tls" "Pupbound-agent by upbound"

abbrev xgql_secret : Secret
xgql_secret = with_cert "xgql-tls" "Pxgql by upbound"

abbrev installed : Reconciler env
installed = record {
  ca_cert = none;
  ca_key = none;
  world =
      put (at ns "xgql-tls") (blank "xgql-tls")
        (put (at ns "upbound-agent-tls") (blank "upbound-agent-tls") (λ n. none));
}

first : Reconciler env
unfolding reconcile
first = (reconcile env (at ns "upbound-agent-tls") installed).1

abbrev restart : Reconciler env
restart = new_reconciler env first.world

second : Reconciler env
unfolding reconcile
second = (reconcile env (at ns "xgql-tls") restart).1

gateway_watched : watches "upbound-agent-tls" ≡ true
unfolding watches
gateway_watched = refl

xgql_watched : watches "xgql-tls" ≡ true
unfolding watches
xgql_watched = refl

history : Steps env cluster_store ns installed second
unfolding first second
history =
    after
      (after (after (start installed) (reconciled "upbound-agent-tls" installed gateway_watched))
        (restarted first))
      (reconciled "xgql-tls" restart xgql_watched)

gateway_there : view second.world (at ns "upbound-agent-tls") ≡ some gateway_secret
unfolding second first
gateway_there = refl

xgql_there : view second.world (at ns "xgql-tls") ≡ some xgql_secret
unfolding second first
xgql_there = refl

gateway_given : HasCert gateway_secret
unfolding get_text lookup
gateway_given h = cc

xgql_given : HasCert xgql_secret
unfolding get_text lookup
xgql_given h = cc

is_blank :
    (t s : Secret)
    → get_text key_tls_cert (entries t.contents) ≡ ""
    → ◌≡◌ {A = Option Secret} (some t) (some s)
    → get_text key_tls_cert (entries s.contents) ≡ ""
is_blank t s empty h = rw (← some-injective t s h) empty

fresh : IsFresh env cluster_store ns cluster_lawful cluster-IsAtomic installed
unfolding get_text lookup
fresh name watched s there = elim (watches-cases name watched) [
  | inl same ↦ is_blank (blank "upbound-agent-tls") s refl (rw same at there)
  | inr same ↦ is_blank (blank "xgql-tls") s refl (rw same at there)
]

history-ShareAuthority_example : ShareAuthority env gateway_secret xgql_secret
history-ShareAuthority_example =
    history-ShareAuthority env cluster_store ns cluster_lawful cluster-IsAtomic "upbound-agent-tls"
      "xgql-tls" gateway_secret xgql_secret fresh history
      (gateway_watched, gateway_there, gateway_given) (xgql_watched, xgql_there, xgql_given)

reconcile-Refines_example :
    Refines env cluster_store ns "xgql-tls"
      (view restart.world)
      (view (reconcile env (at ns "xgql-tls") restart).1.world)
reconcile-Refines_example =
    reconcile-Refines env cluster_lawful cluster_store cluster-IsAtomic ns "xgql-tls" restart
      xgql_watched

not_ca : at ns "upbound-agent-tls" ≢ ca_name ns
not_ca h = cc (ap (λ n. n.name) h)

not_xgql : at ns "upbound-agent-tls" ≢ at ns "xgql-tls"
not_xgql h = cc (ap (λ n. n.name) h)

reconcile-kept_example :
    view (reconcile env (at ns "xgql-tls") restart).1.world (at ns "upbound-agent-tls")
    ≡ view restart.world (at ns "upbound-agent-tls")
reconcile-kept_example =
    reconcile-kept env cluster_store ns cluster_lawful cluster-IsAtomic "xgql-tls" restart
      (at ns "upbound-agent-tls") xgql_watched (λ h. absurd (not_ca h)) (λ h. absurd (not_xgql h))

no_authority : (s : Secret) → view installed.world (ca_name ns) ≡ some s → ⊥
no_authority s h = cc h

-- The other reconciler has read that there is no authority before the first reconciliation.
other : Reconciler env
unfolding first load_or_generate
other = (load_or_generate env ns (err not_found) (record installed { world = first.world })).1

first_run : reconcile env (at ns "upbound-agent-tls") installed ≡ (ok done, first)
unfolding reconcile first
first_run = refl

other_run :
    load_or_generate env ns (err not_found) (record installed { world = first.world })
    ≡ (ok tt, other)
unfolding load_or_generate first other
other_run = refl

empty_run : get_text key_tls_cert (entries (blank "upbound-agent-tls").contents) ≡ ""
unfolding get_text lookup
empty_run = refl

differ_run : other.ca_cert ≢ first.ca_cert
unfolding first other
differ_run h = cc h

load_or_generate-conflict_example :
    (t : Secret) × (view other.world (at ns "upbound-agent-tls") ≡ some t)
    × HasCert t
    × (IsBacked env cluster_store ns "upbound-agent-tls" (view other.world) t → ⊥)
load_or_generate-conflict_example =
    load_or_generate-conflict env cluster_lawful cluster_store cluster-IsAtomic ns
      "upbound-agent-tls" (blank "upbound-agent-tls") installed installed other first not_found done
      gateway_watched refl empty_run first_run refl other_run differ_run
