-- ===== src/Controllers/TlsSecrets/Reconcile/Issuing.antt =====
-- What the issue of a certificate does to the stored secrets, whatever it returns.
use universal_crossplane.Base.{String, ◌≡◌, sym, ap, ◌∙◌, inl, inr, some, ok}
use universal_crossplane.Base.Effects.{lift}
use universal_crossplane.Base.Dict.{Dict, lookup}
use universal_crossplane.Controllers.Kube.{Secret, key_of}
use universal_crossplane.Controllers.TlsSecrets.Env.{Env, cert_configs}
use universal_crossplane.Controllers.TlsSecrets.Store.{IsStore}
use universal_crossplane.Controllers.TlsSecrets.Monad.{Reconciler, effect}
use universal_crossplane.Controllers.TlsSecrets.Monad.Laws.{or_report->>=-always}
use universal_crossplane.Controllers.TlsSecrets.SecretData.{tls_secret_data_from_cert_and_key}
use universal_crossplane.Controllers.TlsSecrets.SecretData.Laws.{
  IsLawful, cert_from_tls_secret_data-tls_secret_data,
}
use universal_crossplane.Controllers.TlsSecrets.Issue.{new_signed_cert_and_key}
use universal_crossplane.Controllers.TlsSecrets.Issue.Laws.{IsSigned, new_signed_cert_and_key_lem}
use universal_crossplane.Controllers.TlsSecrets.Issue.Quiet.{Stays, new_signed_cert_and_key-Stays}
use universal_crossplane.Controllers.TlsSecrets.Reconcile.{ca_name, managed_labels, publish, issue}
use universal_crossplane.Controllers.TlsSecrets.Reconcile.Authority.{HoldsAuthority}
use universal_crossplane.Controllers.TlsSecrets.Cluster.{
  View, at, IsBlank, IsAtomic, IsBacked, Puts, Issues,
}

module _ (E : Env) (L : IsLawful E) (S : IsStore E) (T : IsAtomic E S) where
  open E use {Certificate, Signer}
  open S use {stored}

  module _ (namespace name : String) (v : View) where
    abbrev Issued : Reconciler E → Type 0
    Issued r = Puts E S namespace name v (stored r.world)

    -- An event leaves the secrets as they are.
    Issued-event :
        (s : Secret) (r : Reconciler E) (e : _)
        → Issued r
        → Issued (record r { world = E.record_event s e r.world })
    Issued-event s r e p = rw (S.event-stored s e r.world) p

    publish-Issued :
        (s : Secret) (d : Dict String) (q : Reconciler E)
        → key_of s ≡ at namespace name
        → IsBacked E S namespace name v (record s { labels = managed_labels; contents = some d })
        → Stays E S v q
        → Issued (publish E s d q).1
    unfolding publish
    publish-Issued s d q same backed p =
        let s' : Secret = record s { labels = managed_labels; contents = some d } in
        let before : Issued (effect (E.update_secret s') q).1 = elim (T.update-atomic s' q.world) [
          | inl failed ↦ inl (failed ∙ p)
          | inr written ↦ inr (s', backed, rw (p, same) at written)
        ] in
        or_report->>=-always Issued s' "UpdatingSecret"
          "failed to update secret for certificate data" (effect (E.update_secret s')) _ q
          (Issued-event s') before
          (λ u r h.
            let after : Issued r = rw (← ap (λ o. stored o.1.world) h) before in
            Issued-event s' r _ after)

    issued-IsBacked :
        (s : Secret) (q : Reconciler E) (a : HoldsAuthority E L S namespace q) (c : Certificate)
        (k : Signer) (d : Dict String)
        → IsSigned E S (lookup name cert_configs) q.ca_cert q.ca_key c k
        → tls_secret_data_from_cert_and_key E (some c) (some k) q.ca_cert ≡ ok d
        → Stays E S v q
        → IsBacked E S namespace name v (record s { labels = managed_labels; contents = some d })
    issued-IsBacked s q a c k d is_signed built p = record {
      cas = a.cas;
      ca_cert = a.cert;
      ca_key = a.key;
      authority = a.authority;
      saved = ap (λ f. f (ca_name namespace)) (sym p) ∙ a.saved;
      cert = c;
      key = k;
      readable =
          rw (← a.holds_cert)
            (cert_from_tls_secret_data-tls_secret_data E L c (some k) q.ca_cert d built);
      is_signed = rw (← a.holds_cert, ← a.holds_key) is_signed;
    }

    pub issue-Puts :
        (s : Secret) (q : Reconciler E)
        → key_of s ≡ at namespace name
        → HoldsAuthority E L S namespace q
        → Stays E S v q
        → Issued (issue E (at namespace name) s q.ca_cert q.ca_key q).1
    unfolding issue
    issue-Puts s q same a p =
        let config = lookup name cert_configs in
        let sign = new_signed_cert_and_key E config q.ca_cert q.ca_key in
        or_report->>=-always Issued s "GeneratingCertificates"
          "failed to generate signed certificate" sign _ q (Issued-event s)
          (inl (new_signed_cert_and_key-Stays E S v config q.ca_cert q.ca_key q p))
          (λ (ck : Certificate × Signer) r h.
            let (is_signed, quiet) =
              new_signed_cert_and_key_lem E S config q.ca_cert q.ca_key q r ck.0 ck.1 h in
            let quiet_stays : Stays E S v r = quiet.same_stored ∙ p in
            or_report->>=-always Issued s "GeneratingCertificates"
              "failed to build secret data from generated certificate"
              (lift (tls_secret_data_from_cert_and_key E (some ck.0) (some ck.1) q.ca_cert)) _ r
              (Issued-event s) (inl quiet_stays)
              (λ d r' h'.
                let built = ap (λ o. o.0) h' in
                let backed = issued-IsBacked s q a ck.0 ck.1 d is_signed built p in
                publish-Issued s d r' same backed
                  (ap (λ o. stored o.1.world) (sym h') ∙ quiet_stays)))

    -- The same for a blank secret.
    pub issue-Issued :
        (s : Secret) (q : Reconciler E)
        → key_of s ≡ at namespace name
        → IsBlank namespace name v
        → HoldsAuthority E L S namespace q
        → Stays E S v q
        → Issues E S namespace name v
            (stored (issue E (at namespace name) s q.ca_cert q.ca_key q).1.world)
    issue-Issued s q same blank a p = elim (issue-Puts s q same a p) [
      | inl stays ↦ inl stays
      | inr (t, backed, written) ↦ inr (t, blank, backed, written)
    ]
