-- ===== src/Controllers/TlsSecrets/Reconcile/Authority.antt =====
-- `createOrLoadCA`: after a success the reconciler holds the authority that is stored, and a
-- reconciler that loads the authority later holds the same one.
use mathlib.Core.Option.{get_or, some-injective}
use universal_crossplane.Base.{
  String, ◌≡◌, ◌≢◌, refl, sym, ap, ◌∙◌, inl, inr, Option, some, Result, ok, err, panic, text-cases,
  Result-cases, Bool-cases,
}
use universal_crossplane.Base.Dict.{get_text}
use universal_crossplane.Controllers.Kube.{NamespacedName, Secret, entries}
use universal_crossplane.Controllers.TlsSecrets.Env.{Env, ca_config, key_tls_key}
use universal_crossplane.Controllers.TlsSecrets.Monad.{Reconciler, or_wrap}
use universal_crossplane.Controllers.TlsSecrets.Monad.Laws.{
  >>=-eq-ok, or_wrap-effect-eq-ok, err-ne-ok, panic-ne-ok,
}
use universal_crossplane.Controllers.TlsSecrets.SecretData.{
  tls_secret_data_from_cert_and_key, cert_from_tls_secret_data,
}
use universal_crossplane.Controllers.TlsSecrets.SecretData.Laws.{
  IsLawful, cert_from_tls_secret_data-tls_secret_data, cert_from_tls_secret_data-key,
  get_text-tls_secret_data,
}
use universal_crossplane.Controllers.TlsSecrets.Issue.{new_certificate_authority}
use universal_crossplane.Controllers.TlsSecrets.Reconcile.{
  ca_name, new_ca_secret, with_contents, load_ca, save_ca, generate_ca, load_or_generate,
  create_or_load_ca,
}
use universal_crossplane.Controllers.TlsSecrets.Store.{IsStore}

module _ (E : Env) where
  open E use {Certificate, Signer}

  -- A secret that can be read as an authority with its key.
  pub record IsAuthority (cas : Secret) (cert : Certificate) (key : Signer) : Type 0 where
    pub ca : Option Certificate
    pub readable : cert_from_tls_secret_data E (entries cas.contents) ≡ ok (cert, some key, ca)
    pub has_key : get_text key_tls_key (entries cas.contents) ≢ ""

  load_ca-IsAuthority :
      (cas : Secret) (r r' : Reconciler E)
      → get_text key_tls_key (entries cas.contents) ≢ ""
      → load_ca E cas r ≡ (ok tt, r')
      → (cert : Certificate) × (key : Signer) × IsAuthority cas cert key
        × (r' ≡ record r { ca_cert = some cert; ca_key = some key })
  unfolding load_ca
  load_ca-IsAuthority cas r r' has_key h =
      elim (Result-cases (cert_from_tls_secret_data E (entries cas.contents))) [
        | inl ((cert, key, ca), e) ↦
            let (k, same) = cert_from_tls_secret_data-key E _ cert key ca e has_key in
            (
              cert,
              k,
              record { ca = ca; readable = rw same at e; has_key = has_key },
              sym (ap (λ o. o.1) (rw (e, same) at h)),
            )
        | inr (inl (e, failed)) ↦ absurd (err-ne-ok (rw failed at h))
        | inr (inr panicked) ↦ absurd (panic-ne-ok (rw panicked at h))
      ]

  -- The other way round: such a secret is loaded.
  load_ca-of_IsAuthority :
      (cas : Secret) (cert : Certificate) (key : Signer) (r : Reconciler E)
      → IsAuthority cas cert key
      → load_ca E cas r ≡ (ok tt, record r { ca_cert = some cert; ca_key = some key })
  unfolding load_ca
  load_ca-of_IsAuthority cas cert key r a = rw a.readable

module _ (E : Env) (L : IsLawful E) (S : IsStore E) where
  open E use {Certificate, Signer, World}
  open S use {stored}

  -- The reconciler holds the authority that is stored for the namespace.
  pub record HoldsAuthority (namespace : String) (r : Reconciler E) : Type 0 where
    pub cas : Secret
    pub cert : Certificate
    pub key : Signer
    pub authority : IsAuthority E cas cert key
    pub saved : stored r.world (ca_name namespace) ≡ some cas
    pub holds_cert : r.ca_cert ≡ some cert
    pub holds_key : r.ca_key ≡ some key

  read-stored :
      (n : NamespacedName) (w : World) (s : Secret)
      → (E.get_secret n w).0 ≡ ok s
      → stored w n ≡ some s
  read-stored n w s e = (S.get-ok n w (λ i. (e i, (E.get_secret n w).1))).0

  -- What a `save_ca` that succeeded has written.
  save_ca-HoldsAuthority :
      (namespace : String) (c : Certificate) (k : Signer) (r r' : Reconciler E)
      → save_ca E namespace c k (record r { ca_cert = some c; ca_key = some k }) ≡ (ok tt, r')
      → HoldsAuthority namespace r'
  unfolding save_ca
  save_ca-HoldsAuthority namespace c k r r' h =
      let q : Reconciler E = record r { ca_cert = some c; ca_key = some k } in
      elim (Result-cases (tls_secret_data_from_cert_and_key E (some c) (some k) (some c))) [
        | inl (d, e) ↦
            let (written, same_cert, same_key) =
              or_wrap-effect-eq-ok "failed to update ca secret"
                (E.create_or_update (new_ca_secret namespace) (with_contents d)) q (rw e at h) in
            record {
              cas =
                  with_contents d
                    (get_or (stored r.world (ca_name namespace)) (new_ca_secret namespace));
              cert = c;
              key = k;
              authority = record {
                ca = some c;
                readable = cert_from_tls_secret_data-tls_secret_data E L c (some k) (some c) d e;
                has_key = get_text-tls_secret_data E L c k (some c) d e;
              };
              saved = (S.create-ok (new_ca_secret namespace) (with_contents d) r.world written).0;
              holds_cert = same_cert;
              holds_key = same_key;
            }
        | inr (inl (e, failed)) ↦ absurd (err-ne-ok (rw failed at h))
        | inr (inr panicked) ↦ absurd (panic-ne-ok (rw panicked at h))
      ]

  pub generate_ca-HoldsAuthority :
      (namespace : String) (r r' : Reconciler E)
      → generate_ca E namespace r ≡ (ok tt, r')
      → HoldsAuthority namespace r'
  unfolding generate_ca
  generate_ca-HoldsAuthority namespace r r' h =
      let ((c, k), q, made, saved) =
        >>=-eq-ok (or_wrap "failed to generate new ca" (new_certificate_authority E ca_config)) _ r
          h in
      save_ca-HoldsAuthority namespace c k q r' saved

  pub load_or_generate-HoldsAuthority :
      (namespace : String) (got : Result Secret) (r r' : Reconciler E)
      → ((cas : Secret) → got ≡ ok cas → stored r.world (ca_name namespace) ≡ some cas)
      → load_or_generate E namespace got r ≡ (ok tt, r')
      → HoldsAuthority namespace r'
  unfolding load_or_generate
  load_or_generate-HoldsAuthority namespace (err e) r r' read h =
      elim (Bool-cases (E.is_not_found e)) [
        | inl missing ↦ generate_ca-HoldsAuthority namespace r r' (rw missing at h)
        | inr other ↦ absurd (err-ne-ok (rw other at h))
      ]
  load_or_generate-HoldsAuthority namespace panic r r' read h = absurd (panic-ne-ok h)
  load_or_generate-HoldsAuthority namespace (ok cas) r r' read h =
      elim (text-cases (get_text key_tls_key (entries cas.contents)) "") [
        | inl (empty, _) ↦ generate_ca-HoldsAuthority namespace r r' (rw empty at h)
        | inr (other, has_key) ↦
            let (cert, key, authority, same) =
              load_ca-IsAuthority E cas r r' has_key (rw other at h) in
            rw same (record {
              cas = cas;
              cert = cert;
              key = key;
              authority = authority;
              saved = read cas refl;
              holds_cert = refl;
              holds_key = refl;
            })
      ]

  -- With lawful PEM coders and a lawful store, after `createOrLoadCA` has returned no error the
  -- reconciler holds a certificate and a key, and the secret of the authority that is stored for
  -- the namespace reads as these two.
  pub create_or_load_ca-HoldsAuthority :
      (namespace : String) (r r' : Reconciler E)
      → create_or_load_ca E namespace r ≡ (ok tt, r')
      → HoldsAuthority namespace r'
  unfolding create_or_load_ca
  create_or_load_ca-HoldsAuthority namespace r r' h =
      load_or_generate-HoldsAuthority namespace (E.get_secret (ca_name namespace) r.world).0
        (record r { world = (E.get_secret (ca_name namespace) r.world).1 }) r'
        (λ cas e.
          ap (λ f. f (ca_name namespace)) (S.get-stored (ca_name namespace) r.world)
          ∙ read-stored (ca_name namespace) r.world cas e)
        h

  pub load_or_generate-of_IsAuthority :
      (namespace : String) (cas : Secret) (cert : Certificate) (key : Signer) (q : Reconciler E)
      → IsAuthority E cas cert key
      → load_or_generate E namespace (ok cas) q
        ≡ (ok tt, record q { ca_cert = some cert; ca_key = some key })
  unfolding load_or_generate
  load_or_generate-of_IsAuthority namespace cas cert key q a =
      elim (text-cases (get_text key_tls_key (entries cas.contents)) "") [
        | inl (_, empty) ↦ absurd (a.has_key empty)
        | inr (other, _) ↦ rw other (load_ca-of_IsAuthority E cas cert key q a)
      ]

  -- With lawful PEM coders and a lawful store, where a reconciler holds the authority that is
  -- stored for a namespace and that secret stays, a `createOrLoadCA` of any reconciler whose read
  -- succeeds returns no error, gives this reconciler the same certificate and key, and does no more
  -- than that read.
  pub create_or_load_ca-same :
      (namespace : String) (r q : Reconciler E) (cas : Secret)
      → HoldsAuthority namespace r
      → stored q.world (ca_name namespace) ≡ stored r.world (ca_name namespace)
      → (E.get_secret (ca_name namespace) q.world).0 ≡ ok cas
      → create_or_load_ca E namespace q ≡ (
        ok tt,
        record {
          ca_cert = r.ca_cert;
          ca_key = r.ca_key;
          world = (E.get_secret (ca_name namespace) q.world).1;
        },
      )
  unfolding create_or_load_ca
  create_or_load_ca-same namespace r q cas a kept read =
      let same : cas ≡ a.cas =
        some-injective cas a.cas (sym (read-stored _ q.world cas read) ∙ kept ∙ a.saved) in
      rw (read, same, a.holds_cert, a.holds_key)
        (load_or_generate-of_IsAuthority namespace a.cas a.cert a.key _ a.authority)
