-- ===== src/Controllers/TlsSecrets/Reconcile/Progress.antt =====
-- That a reconciliation issues a certificate in a cluster in which no call fails.
use universal_crossplane.Base.{
  true, String, ◌≡◌, refl, sym, ap, ◌∙◌, inl, inr, some, ok, text-cases,
}
use universal_crossplane.Base.Effects.Returns.{Gives, >>=-Gives}
use universal_crossplane.Base.Dict.{Dict, lookup, get_text}
use universal_crossplane.Controllers.Kube.{Secret, key_of, entries, done}
use universal_crossplane.Controllers.TlsSecrets.Env.{Env, cert_configs, key_tls_cert}
use universal_crossplane.Controllers.TlsSecrets.Store.{IsStore}
use universal_crossplane.Controllers.TlsSecrets.Healthy.{IsHealthy}
use universal_crossplane.Controllers.TlsSecrets.Monad.{Reconciler, effect, or_report}
use universal_crossplane.Controllers.TlsSecrets.Monad.Laws.{or_report-Returns, or_report-eq-ok}
use universal_crossplane.Controllers.TlsSecrets.SecretData.Laws.{IsLawful}
use universal_crossplane.Controllers.TlsSecrets.Setup.{watches, watches-ne_ca}
use universal_crossplane.Controllers.TlsSecrets.Issue.{new_signed_cert_and_key}
use universal_crossplane.Controllers.TlsSecrets.Issue.Quiet.{new_signed_cert_and_key-Stays}
use universal_crossplane.Controllers.TlsSecrets.Issue.Works.{
  watched-IsUsableConfig, new_signed_cert_and_key-Returns,
}
use universal_crossplane.Controllers.TlsSecrets.Reconcile.{
  managed_labels, create_or_load_ca, publish, issue, generate, skip, reconcile,
}
use universal_crossplane.Controllers.TlsSecrets.Reconcile.Authority.{
  HoldsAuthority, create_or_load_ca-HoldsAuthority,
}
use universal_crossplane.Controllers.TlsSecrets.Reconcile.Certificate.{
  reconcile-IsIssued, reconcile-has_cert,
}
use universal_crossplane.Controllers.TlsSecrets.Cluster.Stable.{HasCert}
use universal_crossplane.Controllers.TlsSecrets.Reconcile.Loading.{
  IsReadable, tls_secret_data-Returns, create_or_load_ca-Gives,
}
use universal_crossplane.Controllers.TlsSecrets.Cluster.{at, IsAtomic, Founds}
use universal_crossplane.Controllers.TlsSecrets.Cluster.Refinement.{founded-kept}
use universal_crossplane.Controllers.TlsSecrets.Reconcile.Founding.{create_or_load_ca-Founds}

module _ (E : Env) (L : IsLawful E) (S : IsStore E) (H : IsHealthy E S) where
  open E use {Certificate, Signer}
  open S use {stored}

  publish-Gives :
      (s t : Secret) (d : Dict String) (q : Reconciler E)
      → stored q.world (key_of s) ≡ some t
      → Gives done (publish E s d q)
  unfolding publish
  publish-Gives s t d q there =
      let s' : Secret = record s { labels = managed_labels; contents = some d } in
      >>=-Gives
        (or_report s' "UpdatingSecret" "failed to update secret for certificate data"
          (effect (E.update_secret s')))
        _ q
        (or_report-Returns s' "UpdatingSecret" "failed to update secret for certificate data"
          (effect (E.update_secret s')) q (tt, H.update-written s' t q.world there))
        (λ u r h. refl)

  issue-Gives :
      (namespace name : String) (s t : Secret) (ca : Certificate) (k : Signer) (q : Reconciler E)
      → watches name ≡ true
      → stored q.world (key_of s) ≡ some t
      → Gives done (issue E (at namespace name) s (some ca) (some k) q)
  unfolding issue
  issue-Gives namespace name s t ca k q watched there =
      let config = lookup name cert_configs in
      let sign = new_signed_cert_and_key E config (some ca) (some k) in
      >>=-Gives (or_report s "GeneratingCertificates" "failed to generate signed certificate" sign)
        _ q
        (or_report-Returns s "GeneratingCertificates" "failed to generate signed certificate" sign q
          (new_signed_cert_and_key-Returns E S H config ca k q
            (watched-IsUsableConfig name watched)))
        (λ (ck : Certificate × Signer) r h.
          let made =
            or_report-eq-ok s "GeneratingCertificates" "failed to generate signed certificate" sign
              q h in
          let same : stored r.world ≡ stored q.world =
            ap (λ o. stored o.1.world) (sym made)
            ∙ new_signed_cert_and_key-Stays E S (stored q.world) config (some ca) (some k) q refl in
          let (d, built) = tls_secret_data-Returns E S H ck.0 ck.1 ca in
          rw built (publish-Gives s t d r (ap (λ f. f (key_of s)) same ∙ there)))

  issue-held :
      (namespace name : String) (s t : Secret) (q : Reconciler E)
      → watches name ≡ true
      → HoldsAuthority E L S namespace q
      → stored q.world (key_of s) ≡ some t
      → Gives done (issue E (at namespace name) s q.ca_cert q.ca_key q)
  issue-held namespace name s t q watched a there =
      let gives = issue-Gives namespace name s t a.cert a.key q watched there in
      rw (← a.holds_cert, ← a.holds_key) at gives

  generate-Gives :
      (T : IsAtomic E S) (namespace name : String) (s : Secret) (q : Reconciler E)
      → watches name ≡ true
      → IsReadable E L S H namespace q
      → key_of s ≡ at namespace name
      → stored q.world (at namespace name) ≡ some s
      → Gives done (generate E (at namespace name) s q)
  unfolding generate
  generate-Gives T namespace name s q watched readable key there =
      >>=-Gives
        (or_report s "InitializingCA" "failed to initialize ca" (create_or_load_ca E namespace)) _ q
        (or_report-Returns s "InitializingCA" "failed to initialize ca"
          (create_or_load_ca E namespace) q
          (tt, create_or_load_ca-Gives E L S H namespace q readable))
        (λ u r h.
          let loaded =
            or_report-eq-ok s "InitializingCA" "failed to initialize ca"
              (create_or_load_ca E namespace) q h in
          let a = create_or_load_ca-HoldsAuthority E L S namespace q r loaded in
          let founds : Founds E S namespace (stored q.world) (stored r.world) =
            rw (← ap (λ o. stored o.1.world) loaded)
              (create_or_load_ca-Founds E S T namespace (stored q.world) q refl) in
          let kept =
            founded-kept E L S T namespace name (stored q.world) (stored r.world)
              (watches-ne_ca name watched) founds in
          let there_r : stored r.world (key_of s) ≡ some s = rw key (kept ∙ there) in
          issue-held namespace name s s r watched a there_r)

  reconcile-Gives :
      (T : IsAtomic E S) (namespace name : String) (s : Secret) (q : Reconciler E)
      → watches name ≡ true
      → IsReadable E L S H namespace q
      → stored q.world (at namespace name) ≡ some s
      → Gives done (reconcile E (at namespace name) q)
  unfolding reconcile skip
  reconcile-Gives T namespace name s q watched readable there =
      let n = at namespace name in
      let found = H.get-found n q.world s there in
      let key = (S.get-ok n q.world (λ i. (found i, (E.get_secret n q.world).1))).1 in
      let same = S.get-stored n q.world in
      let r : Reconciler E = record q { world = (E.get_secret n q.world).1 } in
      elim (text-cases (get_text key_tls_cert (entries s.contents)) "") [
        | inl (blank, _) ↦
            rw (found, blank)
              (generate-Gives T namespace name s r watched (rw same readable) key
                (ap (λ f. f n) same ∙ there))
        | inr (given, _) ↦ rw (found, given) refl
      ]

  -- With lawful PEM coders, where no call to the API server or to cryptography fails and an
  -- authority with a key that is stored can be read, a reconciliation of a watched name whose
  -- secret is stored returns no error and asks for no retry, and afterwards the stored secret has a
  -- certificate.
  pub reconcile_progress :
      (T : IsAtomic E S) (namespace name : String) (s : Secret) (q : Reconciler E)
      → watches name ≡ true
      → IsReadable E L S H namespace q
      → stored q.world (at namespace name) ≡ some s
      → let (res, r) = reconcile E (at namespace name) q in
        (res ≡ ok done) × (t : Secret) × (stored r.world (at namespace name) ≡ some t) × HasCert t
  reconcile_progress T namespace name s q watched readable there =
      let n = at namespace name in
      let gives = reconcile-Gives T namespace name s q watched readable there in
      let found = H.get-found n q.world s there in
      elim (text-cases (get_text key_tls_cert (entries s.contents)) "") [
        | inl (_, empty) ↦
            let (issued, a) =
              reconcile-IsIssued E L S n s q _ done (watches-ne_ca name watched) found empty
                (λ i. (gives i, (reconcile E n q).1)) in
            (gives, issued.secret, issued.saved, issued.has_cert)
        | inr (_, given) ↦
            let (_, quiet) = reconcile-has_cert E L S n s q found given in
            (gives, s, ap (λ f. f n) quiet.same_stored ∙ there, given)
      ]
