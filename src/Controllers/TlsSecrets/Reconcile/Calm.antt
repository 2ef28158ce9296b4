-- ===== src/Controllers/TlsSecrets/Reconcile/Calm.antt =====
-- That a reconciliation of a watched name does not panic, whatever fails.
use universal_crossplane.Base.{
  true, String, ◌≡◌, ◌≢◌, refl, inl, inr, some, Result, ok, err, panic, Bool-cases, text-cases,
}
use universal_crossplane.Base.Effects.{or_wrap, lift}
use universal_crossplane.Base.Effects.Calm.{IsCalm, >>=-IsCalm, or_wrap-IsCalm}
use universal_crossplane.Base.Dict.{Dict, lookup, get_text}
use universal_crossplane.Controllers.Kube.{Secret, entries}
use universal_crossplane.Controllers.TlsSecrets.Env.{
  Env, ca_config, cert_configs, key_tls_cert, key_tls_key,
}
use universal_crossplane.Controllers.TlsSecrets.Store.{IsStore}
use universal_crossplane.Controllers.TlsSecrets.Setup.{watches}
use universal_crossplane.Controllers.TlsSecrets.Calm.{IsCalmEnv}
use universal_crossplane.Controllers.TlsSecrets.Monad.{Reconciler, effect, or_report}
use universal_crossplane.Controllers.TlsSecrets.Monad.Laws.{or_report-IsCalm, or_report-eq-ok}
use universal_crossplane.Controllers.TlsSecrets.SecretData.{
  tls_secret_data_from_cert_and_key, cert_from_tls_secret_data,
}
use universal_crossplane.Controllers.TlsSecrets.SecretData.Laws.{IsLawful}
use universal_crossplane.Controllers.TlsSecrets.SecretData.Calm.{
  tls_secret_data-ne_panic, cert_from_tls_secret_data-ne_panic,
}
use universal_crossplane.Controllers.TlsSecrets.Issue.{
  new_signed_cert_and_key, new_certificate_authority,
}
use universal_crossplane.Controllers.TlsSecrets.Issue.Works.{watched-IsUsableConfig}
use universal_crossplane.Controllers.TlsSecrets.Issue.Calm.{
  new_certificate_authority-IsCalm, new_signed_cert_and_key-IsCalm,
}
use universal_crossplane.Controllers.TlsSecrets.Reconcile.{
  managed_labels, new_ca_secret, with_contents, ca_name, load_ca, save_ca, generate_ca,
  load_or_generate, create_or_load_ca, publish, issue, generate, skip, reconcile,
}
use universal_crossplane.Controllers.TlsSecrets.Reconcile.Authority.{
  HoldsAuthority, create_or_load_ca-HoldsAuthority,
}
use universal_crossplane.Controllers.TlsSecrets.Cluster.{at}

module _ (E : Env) (N : IsCalmEnv E) where
  open E use {Certificate, Signer}

  load_ca-IsCalm : (cas : Secret) (q : Reconciler E) → IsCalm (load_ca E cas q)
  unfolding load_ca
  load_ca-IsCalm cas q =
      >>=-IsCalm (or_wrap _ (lift (cert_from_tls_secret_data E (entries cas.contents)))) _ q
        (or_wrap-IsCalm _ (lift (cert_from_tls_secret_data E (entries cas.contents))) q
          (cert_from_tls_secret_data-ne_panic E N (entries cas.contents)))
        (λ x r h e. cc e)

  save_ca-IsCalm :
      (namespace : String) (c : Certificate) (k : Signer) (q : Reconciler E)
      → IsCalm (save_ca E namespace c k q)
  unfolding save_ca
  save_ca-IsCalm namespace c k q =
      >>=-IsCalm (or_wrap _ (lift (tls_secret_data_from_cert_and_key E (some c) (some k) (some c))))
        _ q
        (or_wrap-IsCalm _ (lift (tls_secret_data_from_cert_and_key E (some c) (some k) (some c))) q
          (tls_secret_data-ne_panic E N c k (some c)))
        (λ d r h.
          or_wrap-IsCalm _ (effect (E.create_or_update (new_ca_secret namespace) (with_contents d)))
            r (N.create_or_update (new_ca_secret namespace) (with_contents d) r.world))

  generate_ca-IsCalm : (namespace : String) (q : Reconciler E) → IsCalm (generate_ca E namespace q)
  unfolding generate_ca
  generate_ca-IsCalm namespace q =
      >>=-IsCalm (or_wrap _ (new_certificate_authority E ca_config)) _ q
        (or_wrap-IsCalm _ (new_certificate_authority E ca_config) q
          (new_certificate_authority-IsCalm E N q))
        (λ (ck : Certificate × Signer) r h.
          save_ca-IsCalm namespace ck.0 ck.1 (record r { ca_cert = some ck.0; ca_key = some ck.1 }))

  load_or_generate-IsCalm :
      (namespace : String) (got : Result Secret) (q : Reconciler E)
      → got ≢ panic
      → IsCalm (load_or_generate E namespace got q)
  unfolding load_or_generate
  load_or_generate-IsCalm namespace (ok cas) q calm =
      elim (text-cases (get_text key_tls_key (entries cas.contents)) "") [
        | inl (empty, _) ↦ rw empty (generate_ca-IsCalm namespace q)
        | inr (given, _) ↦ rw given (load_ca-IsCalm cas q)
      ]
  load_or_generate-IsCalm namespace (err e) q calm = elim (Bool-cases (E.is_not_found e)) [
    | inl missing ↦ rw missing (generate_ca-IsCalm namespace q)
    | inr failed ↦ rw failed (λ h. cc h)
  ]
  load_or_generate-IsCalm namespace panic q calm = absurd (calm refl)

  create_or_load_ca-IsCalm :
      (namespace : String) (q : Reconciler E) → IsCalm (create_or_load_ca E namespace q)
  unfolding create_or_load_ca
  create_or_load_ca-IsCalm namespace q =
      load_or_generate-IsCalm namespace (E.get_secret (ca_name namespace) q.world).0 _
        (N.get_secret (ca_name namespace) q.world)

  publish-IsCalm : (s : Secret) (d : Dict String) (q : Reconciler E) → IsCalm (publish E s d q)
  unfolding publish
  publish-IsCalm s d q =
      let s' : Secret = record s { labels = managed_labels; contents = some d } in
      >>=-IsCalm (or_report s' _ _ (effect (E.update_secret s'))) _ q
        (or_report-IsCalm s' _ _ (effect (E.update_secret s')) q (N.update_secret s' q.world))
        (λ u r h e. cc e)

  issue-IsCalm :
      (namespace name : String) (s : Secret) (ca : Certificate) (k : Signer) (q : Reconciler E)
      → watches name ≡ true
      → IsCalm (issue E (at namespace name) s (some ca) (some k) q)
  unfolding issue
  issue-IsCalm namespace name s ca k q watched =
      let config = lookup name cert_configs in
      let sign = new_signed_cert_and_key E config (some ca) (some k) in
      >>=-IsCalm (or_report s _ _ sign) _ q
        (or_report-IsCalm s _ _ sign q
          (new_signed_cert_and_key-IsCalm E N config ca k q (watched-IsUsableConfig name watched)))
        (λ (ck : Certificate × Signer) r h.
          let build =
            lift (tls_secret_data_from_cert_and_key E (some ck.0) (some ck.1) (some ca)) in
          >>=-IsCalm (or_report s _ _ build) _ r
            (or_report-IsCalm s _ _ build r (tls_secret_data-ne_panic E N ck.0 ck.1 (some ca)))
            (λ d r' h'. publish-IsCalm s d r'))

  module _ (L : IsLawful E) (S : IsStore E) (namespace name : String)
      (watched : watches name ≡ true) where
    issue-held :
        (s : Secret) (q : Reconciler E)
        → HoldsAuthority E L S namespace q
        → IsCalm (issue E (at namespace name) s q.ca_cert q.ca_key q)
    issue-held s q a =
        let calm = issue-IsCalm namespace name s a.cert a.key q watched in
        rw (← a.holds_cert, ← a.holds_key) at calm

    generate-IsCalm : (s : Secret) (q : Reconciler E) → IsCalm (generate E (at namespace name) s q)
    unfolding generate
    generate-IsCalm s q =
        >>=-IsCalm (or_report s _ _ (create_or_load_ca E namespace)) _ q
          (or_report-IsCalm s _ _ (create_or_load_ca E namespace) q
            (create_or_load_ca-IsCalm namespace q))
          (λ u r h. issue-held s r (
            create_or_load_ca-HoldsAuthority E L S namespace q r
              (or_report-eq-ok s _ _ (create_or_load_ca E namespace) q h)))

    -- With lawful PEM coders, an API server that keeps secrets, and where the calls of others may
    -- fail but do not panic: a reconciliation of a watched name returns or fails, and does not
    -- panic, whatever is stored and whatever the reconciler holds.
    pub reconcile-IsCalm : (q : Reconciler E) → IsCalm (reconcile E (at namespace name) q)
    unfolding reconcile skip
    reconcile-IsCalm q =
        let n = at namespace name in
        >>=-IsCalm (or_wrap _ (effect (E.get_secret n))) _ q
          (or_wrap-IsCalm _ (effect (E.get_secret n)) q (N.get_secret n q.world))
          (λ s r h. elim (text-cases (get_text key_tls_cert (entries s.contents)) "") [
            | inl (blank, _) ↦ rw blank (generate-IsCalm s r)
            | inr (given, _) ↦ rw given (λ e. cc e)
          ])
