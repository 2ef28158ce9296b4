-- ===== src/Controllers/TlsSecrets/Cluster/Conflict.antt =====
-- Two reconcilers whose calls interleave: `createOrLoadCA` writes the authority that it made without
-- regard to one that was stored after its read.
use mathlib.Core.Option.{some-injective}
use universal_crossplane.Base.{
  String, ◌≡◌, ◌≢◌, refl, sym, ap, ◌∙◌, inl, inr, true, some, Error, ok, err, ok-injective,
}
use universal_crossplane.Base.Dict.{get_text}
use universal_crossplane.Controllers.Kube.{Secret, entries, ReconcileResult}
use universal_crossplane.Controllers.TlsSecrets.Env.{Env, key_tls_cert}
use universal_crossplane.Controllers.TlsSecrets.Store.{IsStore}
use universal_crossplane.Controllers.TlsSecrets.Monad.{Reconciler}
use universal_crossplane.Controllers.TlsSecrets.SecretData.Laws.{IsLawful}
use universal_crossplane.Controllers.TlsSecrets.Setup.{watches, watches-ne_ca}
use universal_crossplane.Controllers.TlsSecrets.Reconcile.{
  ca_name, generate_ca, load_or_generate, reconcile,
}
use universal_crossplane.Controllers.TlsSecrets.Reconcile.Authority.{
  HoldsAuthority, generate_ca-HoldsAuthority,
}
use universal_crossplane.Controllers.TlsSecrets.Reconcile.Published.{IsIssued}
use universal_crossplane.Controllers.TlsSecrets.Reconcile.Certificate.{reconcile-IsIssued}
use universal_crossplane.Controllers.TlsSecrets.Reconcile.Founding.{Written, generate_ca-Written}
use universal_crossplane.Controllers.TlsSecrets.Cluster.{View, at, IsAtomic, IsBacked}
use universal_crossplane.Controllers.TlsSecrets.Cluster.Stable.{HasCert, authority-injective}

module _ (E : Env) (L : IsLawful E) (S : IsStore E) (T : IsAtomic E S)
    (namespace name : String) where
  open S use {stored}

  load_or_generate-not_found :
      (e : Error) (q : Reconciler E)
      → E.is_not_found e ≡ true
      → load_or_generate E namespace (err e) q ≡ generate_ca E namespace q
  unfolding load_or_generate
  load_or_generate-not_found e q missing = rw missing

  Written-kept :
      (v : View) (r : Reconciler E)
      → at namespace name ≢ ca_name namespace
      → Written E S T namespace v r
      → stored r.world (at namespace name) ≡ v (at namespace name)
  Written-kept v r other (inl same) = ap (λ f. f (at namespace name)) same
  Written-kept v r other (inr (cas, (saved, kept))) = kept (at namespace name) other

  -- What is issued is backed only by the authority that issued it.
  IsBacked-held :
      {rb ra : Reconciler E} (i : IsIssued E L S (at namespace name) rb)
      → HoldsAuthority E L S namespace ra
      → IsBacked E S namespace name (stored ra.world) i.secret
      → ra.ca_cert ≡ rb.ca_cert
  IsBacked-held i h b =
      let same =
        authority-injective E h.authority b.authority
          (some-injective h.cas b.cas (sym h.saved ∙ b.saved)) in
      let held = ap (λ x. x.2) (ok-injective (sym b.readable ∙ i.readable)) in
      h.holds_cert ∙ ap some same ∙ held

  -- With lawful PEM coders and such an API server, let one reconciler have read that no authority
  -- is stored; let another one then read the secret of a watched name without a certificate and
  -- issue one, without an error; and let the first go on with its `createOrLoadCA`, without an
  -- error, with an authority whose certificate is another one's. Then the secret of the name still
  -- has a certificate, but not one of the authority that is stored.
  pub load_or_generate-conflict :
      (s : Secret) (a b ra rb : Reconciler E) (e : Error) (res : ReconcileResult)
      → watches name ≡ true
      → (E.get_secret (at namespace name) b.world).0 ≡ ok s
      → get_text key_tls_cert (entries s.contents) ≡ ""
      → reconcile E (at namespace name) b ≡ (ok res, rb)
      → E.is_not_found e ≡ true
      → load_or_generate E namespace (err e) (record a { world = rb.world }) ≡ (ok tt, ra)
      → ra.ca_cert ≢ rb.ca_cert
      → (t : Secret) × (stored ra.world (at namespace name) ≡ some t)
        × HasCert t
        × (IsBacked E S namespace name (stored ra.world) t → ⊥)
  load_or_generate-conflict s a b ra rb e res watched found empty issued missing made differ =
      let not_ca = watches-ne_ca name watched in
      let (i, _) =
        reconcile-IsIssued E L S (at namespace name) s b rb res not_ca found empty issued in
      let q : Reconciler E = record a { world = rb.world } in
      let generated = sym (load_or_generate-not_found e q missing) ∙ made in
      let written : Written E S T namespace (stored rb.world) ra =
        rw (ap (λ o. o.1) generated) at
          (generate_ca-Written E S T namespace (stored rb.world) q refl) in
      let kept =
        Written-kept (stored rb.world) ra (λ same. not_ca (ap (λ n. n.name) same)) written in
      let held = generate_ca-HoldsAuthority E L S namespace q ra generated in
      (i.secret, kept ∙ i.saved, i.has_cert, λ backed. differ (IsBacked-held i held backed))
