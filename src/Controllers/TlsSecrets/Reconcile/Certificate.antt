-- ===== src/Controllers/TlsSecrets/Reconcile/Certificate.antt =====
-- `Reconcile`: what a run that succeeded has stored, and that the next run leaves it.
use mathlib.Core.Path.{subst}
use mathlib.Core.Option.{some-injective}
use universal_crossplane.Base.{
  ◌≡◌, ◌≢◌, refl, sym, ap, ◌∙◌, eq_iff, inl, inr, Result, ok, text-cases,
}
use universal_crossplane.Base.Dict.{get_text}
use universal_crossplane.Controllers.Kube.{
  NamespacedName, Secret, entries, key_of, ReconcileResult, done,
}
use universal_crossplane.Controllers.TlsSecrets.Env.{Env, key_tls_cert, secret_name_ca}
use universal_crossplane.Controllers.TlsSecrets.Store.{IsStore}
use universal_crossplane.Controllers.TlsSecrets.Monad.{Reconciler, or_report}
use universal_crossplane.Controllers.TlsSecrets.Monad.Laws.{>>=-eq-ok, or_report-eq-ok}
use universal_crossplane.Controllers.TlsSecrets.SecretData.Laws.{IsLawful}
use universal_crossplane.Controllers.TlsSecrets.Issue.Laws.{IsQuiet}
use universal_crossplane.Controllers.TlsSecrets.Reconcile.{
  ca_name, create_or_load_ca, issue, generate, skip, reconcile,
}
use universal_crossplane.Controllers.TlsSecrets.Reconcile.Published.{IsIssued, issue_lem}
use universal_crossplane.Controllers.TlsSecrets.Reconcile.Authority.{
  HoldsAuthority, create_or_load_ca-HoldsAuthority,
}

module _ (E : Env) (L : IsLawful E) (S : IsStore E) where
  open E use {Certificate, Signer, World}
  open S use {stored}

  generate_lem :
      (s : Secret) (q r : Reconciler E) (res : ReconcileResult)
      → s.name ≢ secret_name_ca
      → generate E (key_of s) s q ≡ (ok res, r)
      → IsIssued E L S (key_of s) r × HoldsAuthority E L S s.namespace r
  unfolding generate
  generate_lem s q r res not_ca h =
      let (u, q', loaded, rest) =
        >>=-eq-ok
          (or_report s "InitializingCA" "failed to initialize ca" (create_or_load_ca E s.namespace))
          (λ _ r1. issue E (key_of s) s r1.ca_cert r1.ca_key r1) q h in
      let a = create_or_load_ca-HoldsAuthority E L S s.namespace q q' (
        or_report-eq-ok s "InitializingCA" "failed to initialize ca"
          (create_or_load_ca E s.namespace) q loaded) in
      let (issued, kept, cert_kept, key_kept) = issue_lem E L S s q' r res rest in
      (
        issued,
        record {
          cas = a.cas;
          cert = a.cert;
          key = a.key;
          authority = a.authority;
          saved = kept (ca_name s.namespace) (λ e. not_ca (sym (ap (λ n. n.name) e))) ∙ a.saved;
          holds_cert = cert_kept ∙ a.holds_cert;
          holds_key = key_kept ∙ a.holds_key;
        },
      )

  generate-at :
      (req : NamespacedName) (s : Secret) (q r : Reconciler E) (res : ReconcileResult)
      → key_of s ≡ req
      → req.name ≢ secret_name_ca
      → generate E req s q ≡ (ok res, r)
      → IsIssued E L S req r × HoldsAuthority E L S req.namespace r
  generate-at req s q r res same =
      subst
        (λ n.
          n.name ≢ secret_name_ca
          → generate E n s q ≡ (ok res, r)
          → IsIssued E L S n r × HoldsAuthority E L S n.namespace r)
        same (generate_lem s q r res)

  -- What is read of a name.
  abbrev read : NamespacedName → Reconciler E → Result Secret
  read n r = (E.get_secret n r.world).0

  abbrev after_read : NamespacedName → Reconciler E → Reconciler E
  after_read n r = record r { world = (E.get_secret n r.world).1 }

  read-key_of :
      (n : NamespacedName) (r : Reconciler E) (s : Secret) → read n r ≡ ok s → key_of s ≡ n
  read-key_of n r s e = (S.get-ok n r.world (λ i. (e i, (E.get_secret n r.world).1))).1

  -- With lawful PEM coders and a lawful store, let a reconciliation of a secret other than the
  -- authority's read that secret without a certificate and return no error. Then the secret that is
  -- stored has the label of the bootstrapper and data that reads back as a certificate, its key and
  -- the reconciler's authority, where the certificate is made from the template for the name by the
  -- authority's key; and the reconciler holds the authority that is stored for the namespace.
  pub reconcile-IsIssued :
      (req : NamespacedName) (s : Secret) (q r : Reconciler E) (res : ReconcileResult)
      → req.name ≢ secret_name_ca
      → read req q ≡ ok s
      → get_text key_tls_cert (entries s.contents) ≡ ""
      → reconcile E req q ≡ (ok res, r)
      → IsIssued E L S req r × HoldsAuthority E L S req.namespace r
  unfolding reconcile
  reconcile-IsIssued req s q r res not_ca found empty h =
      generate-at req s (after_read req q) r res (read-key_of req q s found) not_ca
        (rw (found, (eq_iff _ _).1 empty) at h)

  reconcile-skip :
      (req : NamespacedName) (s : Secret) (q : Reconciler E)
      → read req q ≡ ok s
      → get_text key_tls_cert (entries s.contents) ≢ ""
      → reconcile E req q ≡ skip E req s (after_read req q)
  unfolding reconcile
  reconcile-skip req s q found given =
      elim (text-cases (get_text key_tls_cert (entries s.contents)) "") [
        | inl (_, empty) ↦ absurd (given empty)
        | inr (other, _) ↦ rw (found, other)
      ]

  -- With a lawful store, a reconciliation whose read finds a secret with a certificate returns no
  -- error, and changes neither what is stored nor the authority that the reconciler holds.
  pub reconcile-has_cert :
      (req : NamespacedName) (s : Secret) (q : Reconciler E)
      → read req q ≡ ok s
      → get_text key_tls_cert (entries s.contents) ≢ ""
      → let (res, r) = reconcile E req q in (res ≡ ok done) × IsQuiet E S q r
  unfolding skip
  reconcile-has_cert req s q found given = rw (reconcile-skip req s q found given) (
    refl,
    record {
      same_cert = refl;
      same_key = refl;
      same_stored = S.event-stored s _ _ ∙ S.get-stored req q.world;
    },
  )

  -- With a lawful store, where a certificate was issued for a name and what is stored under it has
  -- stayed, a reconciliation of the name by any reconciler whose read succeeds returns no error and
  -- changes neither what is stored nor the authority that the reconciler holds.
  pub reconcile_again :
      (req : NamespacedName) (s : Secret) (q r : Reconciler E)
      → IsIssued E L S req r
      → stored q.world req ≡ stored r.world req
      → read req q ≡ ok s
      → let (res, r') = reconcile E req q in (res ≡ ok done) × IsQuiet E S q r'
  reconcile_again req s q r issued kept found =
      let there = (S.get-ok req q.world (λ i. (found i, (E.get_secret req q.world).1))).0 in
      let same : issued.secret ≡ s =
        some-injective issued.secret s (sym issued.saved ∙ sym kept ∙ there) in
      reconcile-has_cert req s q found (rw same at issued.has_cert)
