-- ===== src/Examples/Namespaces/Converged.antt =====
-- A queue of reconciliations of the two secrets, one of them twice.
use universal_crossplane.Base.{true, String, ◌≡◌, refl, some, [], ◌∷◌, inl, inr}
use universal_crossplane.Controllers.Kube.{Secret}
use universal_crossplane.Controllers.TlsSecrets.Setup.{watches, watches-cases}
use universal_crossplane.Controllers.TlsSecrets.Cluster.{at}
use universal_crossplane.Controllers.TlsSecrets.Cluster.Histories.{start}
use universal_crossplane.Controllers.TlsSecrets.Cluster.Convergence.{
  worked, HasConverged, history-HasConverged,
}
use universal_crossplane.Examples.Cluster.{
  view, env, cluster_lawful, cluster_store, cluster-IsAtomic,
}
use universal_crossplane.Examples.Cluster.Healthy.{cluster-IsHealthy}
use universal_crossplane.Examples.Namespaces.{
  ns, installed, blank, fresh, gateway_watched, xgql_watched, no_authority,
}

there :
    (name : String)
    → watches name ≡ true
    → (s : Secret) × (view installed.world (at ns name) ≡ some s)
there name watched = elim (watches-cases name watched) [
  | inl same ↦ (blank "upbound-agent-tls", rw same refl)
  | inr same ↦ (blank "xgql-tls", rw same refl)
]

history-HasConverged_example :
    HasConverged env cluster_lawful cluster_store cluster-IsHealthy cluster-IsAtomic ns
      (worked env ns ("xgql-tls" ∷ "upbound-agent-tls" ∷ "xgql-tls" ∷ []) installed)
history-HasConverged_example =
    history-HasConverged env cluster_lawful cluster_store cluster-IsHealthy cluster-IsAtomic ns
      ("xgql-tls" ∷ "upbound-agent-tls" ∷ "xgql-tls" ∷ []) fresh (start installed)
      (λ s saved has_key. absurd (no_authority s saved)) there
      (xgql_watched, (gateway_watched, (xgql_watched, tt))) (inr (inl refl)) (inl refl)
