-- ===== src/Controllers/TlsSecrets/Reconcile/Loading.antt =====
-- That the authority is loaded or made in a cluster in which no call fails.
use universal_crossplane.Base.{
  true, String, ◌≡◌, ◌≢◌, refl, ap, inl, inr, some, Error, ok, err, text-cases, Option-cases,
}
use universal_crossplane.Base.Effects.{or_wrap}
use universal_crossplane.Base.Effects.Returns.{Gives, >>=-Gives, or_wrap-Gives, or_wrap-Returns}
use universal_crossplane.Base.Dict.{Dict, get_text}
use universal_crossplane.Controllers.Kube.{Secret, entries}
use universal_crossplane.Controllers.TlsSecrets.Env.{Env, ca_config, key_tls_key}
use universal_crossplane.Controllers.TlsSecrets.Store.{IsStore}
use universal_crossplane.Controllers.TlsSecrets.Healthy.{IsHealthy}
use universal_crossplane.Controllers.TlsSecrets.Issue.Works.{new_certificate_authority-Returns}
use universal_crossplane.Controllers.TlsSecrets.Monad.{Reconciler, effect}
use universal_crossplane.Controllers.TlsSecrets.SecretData.{tls_secret_data_from_cert_and_key}
use universal_crossplane.Controllers.TlsSecrets.SecretData.Laws.{IsLawful}
use universal_crossplane.Controllers.TlsSecrets.Issue.{new_certificate_authority}
use universal_crossplane.Controllers.TlsSecrets.Reconcile.{
  ca_name, new_ca_secret, with_contents, save_ca, generate_ca, load_or_generate, create_or_load_ca,
}
use universal_crossplane.Controllers.TlsSecrets.Reconcile.Authority.{
  IsAuthority, load_or_generate-of_IsAuthority,
}

module _ (E : Env) (S : IsStore E) (H : IsHealthy E S) where
  open E use {Certificate, Signer}
  open S use {stored}

  pub tls_secret_data-Returns :
      (c : Certificate) (k : Signer) (ca : Certificate)
      → (d : Dict String) × (tls_secret_data_from_cert_and_key E (some c) (some k) (some ca) ≡ ok d)
  unfolding tls_secret_data_from_cert_and_key
  tls_secret_data-Returns c k ca = let (b, e) = H.marshalled k in rw e (_, refl)

  save_ca-Gives :
      (namespace : String) (c : Certificate) (k : Signer) (q : Reconciler E)
      → Gives tt (save_ca E namespace c k q)
  unfolding save_ca
  save_ca-Gives namespace c k q =
      let (d, e) = tls_secret_data-Returns c k c in
      rw e (
        or_wrap-Gives _ (effect (E.create_or_update (new_ca_secret namespace) (with_contents d))) q
          (H.create-written (new_ca_secret namespace) (with_contents d) q.world (λ t. refl)))

  generate_ca-Gives : (namespace : String) (q : Reconciler E) → Gives tt (generate_ca E namespace q)
  unfolding generate_ca
  generate_ca-Gives namespace q =
      >>=-Gives (or_wrap _ (new_certificate_authority E ca_config)) _ q
        (or_wrap-Returns _ (new_certificate_authority E ca_config) q
          (new_certificate_authority-Returns E S H q))
        (λ (ck : Certificate × Signer) r h.
          save_ca-Gives namespace ck.0 ck.1 (record r { ca_cert = some ck.0; ca_key = some ck.1 }))

module _ (E : Env) (L : IsLawful E) (S : IsStore E) (H : IsHealthy E S) where
  open E use {Certificate, Signer}
  open S use {stored}

  -- A stored authority with a key can be read.
  abbrev pub IsReadable : String → Reconciler E → Type 0
  IsReadable namespace q =
      (cas : Secret)
      → stored q.world (ca_name namespace) ≡ some cas
      → get_text key_tls_key (entries cas.contents) ≢ ""
      → (c : Certificate) × (k : Signer) × IsAuthority E cas c k

  load_or_generate-Gives :
      (namespace : String) (cas : Secret) (q : Reconciler E)
      → (get_text key_tls_key (entries cas.contents) ≢ ""
          → (c : Certificate) × (k : Signer) × IsAuthority E cas c k)
      → Gives tt (load_or_generate E namespace (ok cas) q)
  unfolding load_or_generate
  load_or_generate-Gives namespace cas q readable =
      elim (text-cases (get_text key_tls_key (entries cas.contents)) "") [
        | inl (empty, _) ↦ rw empty (generate_ca-Gives E S H namespace q)
        | inr (_, given) ↦
            let (c, k, a) = readable given in
            ap (λ o. o.0) (load_or_generate-of_IsAuthority E L S namespace cas c k q a)
      ]

  load_or_generate-missing :
      (namespace : String) (e : Error) (q : Reconciler E)
      → E.is_not_found e ≡ true
      → Gives tt (load_or_generate E namespace (err e) q)
  unfolding load_or_generate
  load_or_generate-missing namespace e q missing = rw missing (generate_ca-Gives E S H namespace q)

  pub create_or_load_ca-Gives :
      (namespace : String) (q : Reconciler E)
      → IsReadable namespace q
      → Gives tt (create_or_load_ca E namespace q)
  unfolding create_or_load_ca
  create_or_load_ca-Gives namespace q readable =
      let n = ca_name namespace in
      let r : Reconciler E = record q { world = (E.get_secret n q.world).1 } in
      elim (Option-cases (stored q.world n)) [
        | inr (cas, there) ↦
            rw (H.get-found n q.world cas there)
              (load_or_generate-Gives namespace cas r (readable cas there))
        | inl gone ↦
            let (e, failed, missing) = H.get-none n q.world gone in
            rw failed (load_or_generate-missing namespace e r missing)
      ]
