-- ===== src/Controllers/TlsSecrets/Cluster/Histories.antt =====
-- Histories of a namespace: reconciliations with any result, restarts of the controller, time, and
-- an upgrade of the release, which resets a watched secret.
use mathlib.Core.Option.{some-injective}
use universal_crossplane.Base.{true, String, ◌≡◌, ◌≢◌, sym, ap, ◌∙◌, inl, inr, some, ok, text-cases}
use universal_crossplane.Controllers.Kube.{NamespacedName, Secret, entries}
use universal_crossplane.Controllers.TlsSecrets.Env.{Env}
use universal_crossplane.Controllers.TlsSecrets.Store.{IsStore}
use universal_crossplane.Controllers.TlsSecrets.Monad.{Reconciler, new_reconciler}
use universal_crossplane.Controllers.TlsSecrets.SecretData.{cert_from_tls_secret_data}
use universal_crossplane.Controllers.TlsSecrets.SecretData.Laws.{IsLawful}
use universal_crossplane.Controllers.TlsSecrets.Setup.{watches, watches-ne_ca}
use universal_crossplane.Controllers.TlsSecrets.Reconcile.{ca_name, reconcile}
use universal_crossplane.Controllers.TlsSecrets.Cluster.{
  View, at, IsBlank, IsUsable, IsAtomic, IsBacked,
}
use universal_crossplane.Controllers.TlsSecrets.Cluster.Refinement.{reconcile-Refines}
use universal_crossplane.Controllers.TlsSecrets.Cluster.Stable.{
  HasCert, authority-injective, IsSound, IsBacked-kept, Refines-IsSound, Refines-kept,
}

module _ (E : Env) where
  -- Both secrets can be read, and hold the same authority.
  pub record ShareAuthority (s t : Secret) : Type 0 where
    pub authority : E.Certificate
    pub left :
        (c : E.Certificate) × (k : E.Signer) × (cert_from_tls_secret_data E (entries s.contents)
          ≡ ok (c, some k, some authority))
    pub right :
        (c : E.Certificate) × (k : E.Signer) × (cert_from_tls_secret_data E (entries t.contents)
          ≡ ok (c, some k, some authority))

module _ (E : Env) (S : IsStore E) (namespace : String) where
  open S use {stored}

  pub data Step : Reconciler E → Reconciler E → Type 0 where
    reconciled :
        (name : String) (q : Reconciler E)
        → watches name ≡ true
        → Step q (reconcile E (at namespace name) q).1
    restarted : (q : Reconciler E) → Step q (new_reconciler E q.world)
    elapsed :
        (q : Reconciler E) (w : E.World)
        → stored w ≡ stored q.world
        → Step q (record q { world = w })
    upgraded :
        (name : String) (q : Reconciler E) (w : E.World)
        → watches name ≡ true
        → IsBlank namespace name (stored w)
        → ((n : NamespacedName) → n ≢ at namespace name → stored w n ≡ stored q.world n)
        → Step q (record q { world = w })

  pub data Steps : Reconciler E → Reconciler E → Type 0 where
    start : (q : Reconciler E) → Steps q q
    after : {q r s : Reconciler E} → Steps q r → Step r s → Steps q s

  pub upgraded-IsSound :
      (name : String) (v v' : View)
      → watches name ≡ true
      → IsBlank namespace name v'
      → ((n : NamespacedName) → n ≢ at namespace name → v' n ≡ v n)
      → IsSound E S namespace v
      → IsSound E S namespace v'
  upgraded-IsSound name v v' watched blank kept sound other s watched_other there has_cert =
      elim (text-cases other name) [
        | inl (_, same) ↦ absurd (has_cert (blank s (rw same at there)))
        | inr (_, differs) ↦
            let apart : at namespace other ≢ at namespace name =
              λ e. differs (ap (λ n. n.name) e) in
            let ca_apart : ca_name namespace ≢ at namespace name =
              λ e. watches-ne_ca name watched (sym (ap (λ n. n.name) e)) in
            IsBacked-kept E S namespace (kept (ca_name namespace) ca_apart)
              (sound other s watched_other (sym (kept (at namespace other) apart) ∙ there) has_cert)
      ]

  module _ (L : IsLawful E) (T : IsAtomic E S) where
    Step-IsSound :
        {q r : Reconciler E}
        → Step q r
        → IsSound E S namespace (stored q.world)
        → IsSound E S namespace (stored r.world)
    Step-IsSound (reconciled name q watched) sound =
        Refines-IsSound E S namespace name watched
          (reconcile-Refines E L S T namespace name q watched) sound
    Step-IsSound (restarted q) sound = sound
    Step-IsSound (elapsed q w same) sound = rw same sound
    Step-IsSound (upgraded name q w watched blank kept) sound =
        upgraded-IsSound name (stored q.world) (stored w) watched blank kept sound

    pub Steps-IsSound :
        {q r : Reconciler E}
        → Steps q r
        → IsSound E S namespace (stored q.world)
        → IsSound E S namespace (stored r.world)
    Steps-IsSound (start q) sound = sound
    Steps-IsSound (after before last) sound = Step-IsSound last (Steps-IsSound before sound)

    -- No watched secret has a certificate, as after an installation.
    abbrev pub IsFresh : Reconciler E → Type 0
    IsFresh q = (name : String) → watches name ≡ true → IsBlank namespace name (stored q.world)

    -- After any history as that of `history-ShareAuthority`, a watched secret that has a
    -- certificate can be read; its certificate is made from the template for its name by the key of
    -- the authority that is stored, and it holds that authority's certificate.
    pub history-IsBacked :
        {q r : Reconciler E} (name : String) (s : Secret)
        → IsFresh q
        → Steps q r
        → watches name ≡ true
        → stored r.world (at namespace name) ≡ some s
        → HasCert s
        → IsBacked E S namespace name (stored r.world) s
    history-IsBacked name s fresh steps =
        Steps-IsSound steps
          (λ other t watched there has_cert. absurd (has_cert (fresh other watched t there))) name s

    pub IsBacked-same :
        {a b : String} {v : View} {s t : Secret}
        → IsBacked E S namespace a v s
        → IsBacked E S namespace b v t
        → ShareAuthority E s t
    IsBacked-same x y =
        let same_cert =
          authority-injective E x.authority y.authority
            (some-injective x.cas y.cas (sym x.saved ∙ y.saved)) in
        record {
          authority = x.ca_cert;
          left = (x.cert, x.key, x.readable);
          right = (y.cert, y.key, rw same_cert y.readable);
        }

    -- With lawful PEM coders and such an API server, start from a namespace in which no watched
    -- secret has a certificate, and let reconciliations of watched names with any result, restarts
    -- of the controller, time in which the secrets stay, and writes by others that leave a watched
    -- secret without a certificate and the other secrets as they are follow in any order. Then two
    -- watched secrets that have certificates can be read, and both hold the certificate of the same
    -- authority.
    pub history-ShareAuthority :
        {q r : Reconciler E} (a b : String) (s t : Secret)
        → IsFresh q
        → Steps q r
        → (watches a ≡ true) × (stored r.world (at namespace a) ≡ some s) × HasCert s
        → (watches b ≡ true) × (stored r.world (at namespace b) ≡ some t) × HasCert t
        → ShareAuthority E s t
    history-ShareAuthority a b s t fresh steps (watched_a, there_a, has_a)
          (watched_b, there_b, has_b) =
        IsBacked-same (history-IsBacked a s fresh steps watched_a there_a has_a)
          (history-IsBacked b t fresh steps watched_b there_b has_b)

    -- With lawful PEM coders and an API server that keeps secrets and whose failed writes have
    -- happened or not, a reconciliation of a watched name, whatever it returns, leaves what is
    -- stored under any name but in two cases: it may write the secret of its own name where that
    -- has no certificate, and the authority's where none with a key is stored.
    pub reconcile-kept :
        (name : String) (q : Reconciler E) (n : NamespacedName)
        → watches name ≡ true
        → (n ≡ ca_name namespace → IsUsable namespace (stored q.world))
        → (n ≡ at namespace name → (s : Secret) × (stored q.world n ≡ some s) × HasCert s)
        → stored (reconcile E (at namespace name) q).1.world n ≡ stored q.world n
    reconcile-kept name q n watched =
        Refines-kept E S namespace name n (reconcile-Refines E L S T namespace name q watched)
