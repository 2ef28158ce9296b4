-- ===== src/Controllers/TlsSecrets/Issue/Works.antt =====
-- That certificates are made in a cluster in which no call fails.
use universal_crossplane.Base.{
  arith, true, String, ◌≡◌, refl, sym, ap, ◌∙◌, inl, inr, Option, some, ok, ok-injective,
}
use universal_crossplane.Base.Effects.{or_wrap}
use universal_crossplane.Base.Effects.Returns.{Returns, >>=-Returns, or_wrap-Returns}
use universal_crossplane.Base.Dict.{lookup}
use universal_crossplane.Controllers.TlsSecrets.Env.{
  Env, CertConfig, Template, cert_configs, ca_config, rsa_key_size,
}
use universal_crossplane.Controllers.TlsSecrets.Store.{IsStore}
use universal_crossplane.Controllers.TlsSecrets.Healthy.{IsHealthy}
use universal_crossplane.Controllers.TlsSecrets.Monad.{Reconciler, effect}
use universal_crossplane.Controllers.TlsSecrets.Setup.{watches, watches-cases}
use universal_crossplane.Controllers.TlsSecrets.Issue.{
  max_int64, check_config, template, sign, new_signed_cert, new_signed_cert_and_key,
  new_certificate_authority,
}

-- A configuration that passes the checks.
abbrev pub IsUsableConfig : Option CertConfig → Type 0
IsUsableConfig config = (cfg : CertConfig) × (config ≡ some cfg) × (check_config cfg ≡ ok tt)

pub watched-IsUsableConfig :
    (name : String) → watches name ≡ true → IsUsableConfig (lookup name cert_configs)
unfolding check_config lookup
watched-IsUsableConfig name h = elim (watches-cases name h) [
  | inl same ↦ rw same (_, refl, refl)
  | inr same ↦ rw same (_, refl, refl)
]

module _ (E : Env) (S : IsStore E) (H : IsHealthy E S) where
  open E use {Certificate, Signer}

  pub new_certificate_authority-Returns :
      (q : Reconciler E) → Returns (new_certificate_authority E ca_config q)
  unfolding new_certificate_authority
  new_certificate_authority-Returns q =
      >>=-Returns (or_wrap _ (effect (E.generate_key rsa_key_size))) _ q
        (or_wrap-Returns _ (effect (E.generate_key rsa_key_size)) q
          (H.key-made rsa_key_size q.world))
        (λ key r h.
          >>=-Returns (or_wrap _ (effect (E.new_self_signed_ca_cert ca_config key))) _ r
            (or_wrap-Returns _ (effect (E.new_self_signed_ca_cert ca_config key)) r
              (H.self-signed ca_config key r.world))
            (λ cert r' h'. (_, refl)))

  sign-Returns :
      (t : Template) (ca : Certificate) (key k : Signer) (q : Reconciler E)
      → Returns (sign E t ca key (some k) q)
  unfolding sign
  sign-Returns t ca key k q =
      let (der, cert, made, parsed) = H.signed t ca (E.public key) k q.world in
      >>=-Returns (effect (E.create_certificate t ca (E.public key) (some k))) _ q (der, made)
        (λ d r h.
          let same : der ≡ d = ok-injective (sym made ∙ ap (λ o. o.0) h) in
          (cert, rw same at parsed))

  new_signed_cert-Returns :
      (cfg : CertConfig) (key : Signer) (ca : Certificate) (k : Signer) (q : Reconciler E)
      → check_config cfg ≡ ok tt
      → Returns (new_signed_cert E (some cfg) key (some ca) (some k) q)
  unfolding new_signed_cert
  new_signed_cert-Returns cfg key ca k q checked =
      >>=-Returns (effect (E.rand_int max_int64)) _ q
        (H.serial-made max_int64 q.world (omega arith))
        (λ serial r h.
          rw checked (sign-Returns (template E cfg serial ca (E.now r.world)) ca key k r))

  pub new_signed_cert_and_key-Returns :
      (config : Option CertConfig) (ca : Certificate) (k : Signer) (q : Reconciler E)
      → IsUsableConfig config
      → Returns (new_signed_cert_and_key E config (some ca) (some k) q)
  unfolding new_signed_cert_and_key
  new_signed_cert_and_key-Returns config ca k q (cfg, is, checked) = rw is (
      >>=-Returns (or_wrap _ (effect (E.generate_key rsa_key_size))) _ q
        (or_wrap-Returns _ (effect (E.generate_key rsa_key_size)) q
          (H.key-made rsa_key_size q.world))
        (λ key r h.
          >>=-Returns (or_wrap _ (new_signed_cert E (some cfg) key (some ca) (some k))) _ r
            (or_wrap-Returns _ (new_signed_cert E (some cfg) key (some ca) (some k)) r
              (new_signed_cert-Returns cfg key ca k r checked))
            (λ cert r' h'. (_, refl))))
