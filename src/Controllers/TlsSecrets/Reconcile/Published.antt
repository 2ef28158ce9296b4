-- ===== src/Controllers/TlsSecrets/Reconcile/Published.antt =====
-- What the end of `Reconcile` stores where it succeeds.
use universal_crossplane.Base.{
  String, ◌≡◌, ◌≢◌, refl, sym, ap, ◌∙◌, inl, inr, some, ok, Result-cases,
}
use universal_crossplane.Base.Dict.{Dict, lookup, get_text}
use universal_crossplane.Controllers.Kube.{NamespacedName, Secret, entries, key_of, ReconcileResult}
use universal_crossplane.Controllers.TlsSecrets.Env.{Env, cert_configs, key_tls_cert}
use universal_crossplane.Controllers.TlsSecrets.Store.{IsStore}
use universal_crossplane.Controllers.TlsSecrets.Monad.{Reconciler, or_report}
use universal_crossplane.Controllers.TlsSecrets.Monad.Laws.{
  >>=-eq-ok, or_report-eq-ok, err-ne-ok, panic-ne-ok,
}
use universal_crossplane.Controllers.TlsSecrets.SecretData.{
  tls_secret_data_from_cert_and_key, cert_from_tls_secret_data,
}
use universal_crossplane.Controllers.TlsSecrets.SecretData.Laws.{
  IsLawful, cert_from_tls_secret_data-tls_secret_data, get_text-tls_cert,
}
use universal_crossplane.Controllers.TlsSecrets.Issue.{new_signed_cert_and_key}
use universal_crossplane.Controllers.TlsSecrets.Issue.Laws.{
  IsSigned, IsQuiet, new_signed_cert_and_key_lem,
}
use universal_crossplane.Controllers.TlsSecrets.Reconcile.{managed_labels, publish, issue}

module _ (E : Env) (L : IsLawful E) (S : IsStore E) where
  open E use {Certificate, Signer, World}
  open S use {stored}

  abbrev published : Secret → Dict String → Secret
  published s d = record s { labels = managed_labels; contents = some d }

  publish_lem :
      (s : Secret) (d : Dict String) (q r : Reconciler E) (res : ReconcileResult)
      → publish E s d q ≡ (ok res, r)
      → (stored r.world (key_of s) ≡ some (published s d))
        × ((n : NamespacedName) → n ≢ key_of s → stored r.world n ≡ stored q.world n)
        × (r.ca_cert ≡ q.ca_cert)
        × (r.ca_key ≡ q.ca_key)
  unfolding publish
  publish_lem s d q r res h = elim (Result-cases (E.update_secret (published s d) q.world).0) [
    | inl (u, e) ↦
        let after = rw e at h in
        let (saved, kept) =
          S.update-ok (published s d) q.world
            (λ i. (e i, (E.update_secret (published s d) q.world).1)) in
        let same = sym (ap (λ o. stored o.1.world) after) ∙ S.event-stored (published s d) _ _ in
        (
          rw same saved,
          λ n other. rw same (kept n other),
          sym (ap (λ o. o.1.ca_cert) after),
          sym (ap (λ o. o.1.ca_key) after),
        )
    | inr (inl (e, failed)) ↦ absurd (err-ne-ok (rw failed at h))
    | inr (inr panicked) ↦ absurd (panic-ne-ok (rw panicked at h))
  ]

  -- The secret that is stored under the name holds a certificate that is signed by the
  -- reconciler's authority for the configuration of the name, its key, and the authority.
  pub record IsIssued (n : NamespacedName) (r : Reconciler E) : Type 0 where
    pub secret : Secret
    pub saved : stored r.world n ≡ some secret
    pub labelled : secret.labels ≡ managed_labels
    pub cert : Certificate
    pub key : Signer
    pub readable :
        cert_from_tls_secret_data E (entries secret.contents) ≡ ok (cert, some key, r.ca_cert)
    pub is_signed : IsSigned E S (lookup n.name cert_configs) r.ca_cert r.ca_key cert key
    pub has_cert : get_text key_tls_cert (entries secret.contents) ≢ ""

  published_lem :
      (s : Secret) (d : Dict String) (c : Certificate) (k : Signer) (q q' r : Reconciler E)
      (res : ReconcileResult)
      → IsSigned E S (lookup s.name cert_configs) q.ca_cert q.ca_key c k
      → IsQuiet E S q q'
      → tls_secret_data_from_cert_and_key E (some c) (some k) q.ca_cert ≡ ok d
      → publish E s d q' ≡ (ok res, r)
      → IsIssued (key_of s) r
        × ((n : NamespacedName) → n ≢ key_of s → stored r.world n ≡ stored q.world n)
        × (r.ca_cert ≡ q.ca_cert)
        × (r.ca_key ≡ q.ca_key)
  published_lem s d c k q q' r res is_signed quiet built h =
      let (saved, kept, cert_kept, key_kept) = publish_lem s d q' r res h in
      let same_cert = cert_kept ∙ quiet.same_cert in
      let same_key = key_kept ∙ quiet.same_key in
      (
        record {
          secret = published s d;
          saved = saved;
          labelled = refl;
          cert = c;
          key = k;
          readable =
              rw same_cert
                (cert_from_tls_secret_data-tls_secret_data E L c (some k) q.ca_cert d built);
          is_signed = rw (same_cert, same_key) is_signed;
          has_cert = get_text-tls_cert E L c k q.ca_cert d built;
        },
        λ n other. kept n other ∙ ap (λ f. f n) quiet.same_stored,
        same_cert,
        same_key,
      )

  pub issue_lem :
      (s : Secret) (q r : Reconciler E) (res : ReconcileResult)
      → issue E (key_of s) s q.ca_cert q.ca_key q ≡ (ok res, r)
      → IsIssued (key_of s) r
        × ((n : NamespacedName) → n ≢ key_of s → stored r.world n ≡ stored q.world n)
        × (r.ca_cert ≡ q.ca_cert)
        × (r.ca_key ≡ q.ca_key)
  unfolding issue
  issue_lem s q r res h =
      let sign = new_signed_cert_and_key E (lookup s.name cert_configs) q.ca_cert q.ca_key in
      let ((c, k), q', issued, rest) =
        >>=-eq-ok
          (or_report s "GeneratingCertificates" "failed to generate signed certificate" sign) _ q
          h in
      let (is_signed, quiet) =
        new_signed_cert_and_key_lem E S (lookup s.name cert_configs) q.ca_cert q.ca_key q q' c k (
          or_report-eq-ok s "GeneratingCertificates" "failed to generate signed certificate" sign q
            issued) in
      elim (Result-cases (tls_secret_data_from_cert_and_key E (some c) (some k) q.ca_cert)) [
        | inl (d, e) ↦ published_lem s d c k q q' r res is_signed quiet e (rw e at rest)
        | inr (inl (e, failed)) ↦ absurd (err-ne-ok (rw failed at rest))
        | inr (inr panicked) ↦ absurd (panic-ne-ok (rw panicked at rest))
      ]
