-- ===== src/Controllers/TlsSecrets/Cluster/Readiness.antt =====
-- What a reconciliation in a cluster in which no call fails finds, and leaves, in its namespace.
use mathlib.Core.Option.{some-injective}
use universal_crossplane.Base.{true, String, ◌≡◌, sym, ap, ◌∙◌, inl, inr, some, ok, text-cases}
use universal_crossplane.Base.Dict.{get_text}
use universal_crossplane.Controllers.Kube.{Secret, entries, done}
use universal_crossplane.Controllers.TlsSecrets.Env.{Env, key_tls_cert}
use universal_crossplane.Controllers.TlsSecrets.Store.{IsStore}
use universal_crossplane.Controllers.TlsSecrets.Healthy.{IsHealthy}
use universal_crossplane.Controllers.TlsSecrets.Monad.{Reconciler}
use universal_crossplane.Controllers.TlsSecrets.SecretData.Laws.{IsLawful}
use universal_crossplane.Controllers.TlsSecrets.Setup.{watches, watches-ne_ca}
use universal_crossplane.Controllers.TlsSecrets.Reconcile.{ca_name, reconcile}
use universal_crossplane.Controllers.TlsSecrets.Reconcile.Authority.{HoldsAuthority}
use universal_crossplane.Controllers.TlsSecrets.Reconcile.Certificate.{
  reconcile-IsIssued, reconcile-has_cert,
}
use universal_crossplane.Controllers.TlsSecrets.Reconcile.Loading.{IsReadable}
use universal_crossplane.Controllers.TlsSecrets.Reconcile.Progress.{reconcile_progress}
use universal_crossplane.Controllers.TlsSecrets.Cluster.{at, IsAtomic}
use universal_crossplane.Controllers.TlsSecrets.Cluster.Refinement.{reconcile-Refines}
use universal_crossplane.Controllers.TlsSecrets.Cluster.Stable.{HasCert, IsSound, Refines-IsSound}
use universal_crossplane.Controllers.TlsSecrets.Cluster.Histories.{reconcile-kept}

module _ (E : Env) (L : IsLawful E) (S : IsStore E) (H : IsHealthy E S) (T : IsAtomic E S)
    (namespace : String) where
  open S use {stored}

  -- A secret with a certificate is stored under the name.
  abbrev pub Certified : String → Reconciler E → Type 0
  Certified name q = (s : Secret) × (stored q.world (at namespace name) ≡ some s) × HasCert s

  -- The watched secrets are there, and the authority can be read where it is stored.
  pub record IsReady (q : Reconciler E) : Type 0 where
    pub sound : IsSound E S namespace (stored q.world)
    pub readable : IsReadable E L S H namespace q
    pub there :
        (name : String)
        → watches name ≡ true
        → (s : Secret) × (stored q.world (at namespace name) ≡ some s)

  HoldsAuthority-IsReadable :
      (r : Reconciler E) → HoldsAuthority E L S namespace r → IsReadable E L S H namespace r
  HoldsAuthority-IsReadable r a cas saved has_key =
      let same = some-injective a.cas cas (sym a.saved ∙ saved) in
      (a.cert, a.key, rw same at a.authority)

  module _ (name : String) (watched : watches name ≡ true) (q : Reconciler E) where
    abbrev pub next : Reconciler E
    next = (reconcile E (at namespace name) q).1

    -- A certificate that is there stays.
    pub Certified-next :
        (other : String) → watches other ≡ true → Certified other q → Certified other next
    Certified-next other watched_other (s, there, has_cert) = (
      s,
      reconcile-kept E S namespace L T name q (at namespace other) watched
            (λ e. absurd (watches-ne_ca other watched_other (ap (λ n. n.name) e)))
            (λ e. (s, there, has_cert))
          ∙ there,
      has_cert,
    )

    module _ (ready : IsReady q) where
      abbrev own : (s : Secret) × (stored q.world (at namespace name) ≡ some s)
      own = ready.there name watched

      pub next-progress : ((reconcile E (at namespace name) q).0 ≡ ok done) × Certified name next
      next-progress =
          let (fine, t, there, has_cert) =
            reconcile_progress E L S H T namespace name own.0 q watched ready.readable own.1 in
          (fine, (t, there, has_cert))

      next-IsReadable : IsReadable E L S H namespace next
      next-IsReadable =
          let n = at namespace name in
          let found = H.get-found n q.world own.0 own.1 in
          elim (text-cases (get_text key_tls_cert (entries own.0.contents)) "") [
            | inl (_, empty) ↦
                HoldsAuthority-IsReadable next
                  (reconcile-IsIssued E L S n own.0 q next done (watches-ne_ca name watched) found
                    empty (λ i. (next-progress.0 i, next))).1
            | inr (_, given) ↦
                let (_, quiet) = reconcile-has_cert E L S n own.0 q found given in
                λ cas saved has_key.
                  ready.readable cas
                    (sym (ap (λ f. f (ca_name namespace)) quiet.same_stored) ∙ saved) has_key
          ]

      next-there :
          (other : String)
          → watches other ≡ true
          → (s : Secret) × (stored next.world (at namespace other) ≡ some s)
      next-there other watched_other = elim (text-cases other name) [
        | inl (_, same) ↦
            let (t, there, _) = next-progress.1 in
            (t, ap (λ x. stored next.world (at namespace x)) same ∙ there)
        | inr (_, differs) ↦
            let (s, there) = ready.there other watched_other in
            (
              s,
              reconcile-kept E S namespace L T name q (at namespace other) watched
                    (λ e. absurd (watches-ne_ca other watched_other (ap (λ n. n.name) e)))
                    (λ e. absurd (differs (ap (λ n. n.name) e)))
                  ∙ there,
            )
      ]

      pub next-IsReady : IsReady next
      next-IsReady = record {
        sound =
            Refines-IsSound E S namespace name watched
              (reconcile-Refines E L S T namespace name q watched) ready.sound;
        readable = next-IsReadable;
        there = next-there;
      }
