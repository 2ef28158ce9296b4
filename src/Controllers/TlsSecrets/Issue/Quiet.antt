-- ===== src/Controllers/TlsSecrets/Issue/Quiet.antt =====
-- That the issue of a certificate leaves the stored secrets as they are, whatever it returns.
use universal_crossplane.Base.{ℕ, ◌≡◌, ◌∙◌, Option}
use universal_crossplane.Base.Effects.{lift, gets, or_wrap}
use universal_crossplane.Base.Effects.Always.{Keeps, >>=-Keeps}
use universal_crossplane.Controllers.Kube.{NamespacedName, Secret}
use universal_crossplane.Controllers.TlsSecrets.Env.{Env, CertConfig, Template, rsa_key_size}
use universal_crossplane.Controllers.TlsSecrets.Store.{IsStore}
use universal_crossplane.Controllers.TlsSecrets.Monad.{Reconciler, effect}
use universal_crossplane.Controllers.TlsSecrets.Issue.{
  max_int64, deref, check_config, template, sign, new_signed_cert, new_signed_cert_and_key,
  new_certificate_authority,
}

module _ (E : Env) (S : IsStore E) (v : NamespacedName → Option Secret) where
  open E use {Certificate, Signer}
  open S use {stored}

  -- The stored secrets are these.
  abbrev pub Stays : Reconciler E → Type 0
  Stays r = stored r.world ≡ v

  sign-Stays :
      (t : Template) (ca : Certificate) (key : Signer) (ca_key : Option Signer)
      → Keeps Stays (sign E t ca key ca_key)
  unfolding sign
  sign-Stays t ca key ca_key =
      >>=-Keeps Stays (effect (E.create_certificate t ca (E.public key) ca_key)) _
        (λ r p. S.create_certificate-stored t ca (E.public key) ca_key r.world ∙ p) (λ der r p. p)

  new_signed_cert-Stays :
      (config : Option CertConfig) (key : Signer) (ca_cert : Option Certificate)
      (ca_key : Option Signer)
      → Keeps Stays (new_signed_cert E config key ca_cert ca_key)
  unfolding new_signed_cert
  new_signed_cert-Stays config key ca_cert ca_key =
      >>=-Keeps Stays (effect (E.rand_int max_int64)) _
        (λ r p. S.rand_int-stored max_int64 r.world ∙ p)
        λ serial.
          >>=-Keeps Stays (lift (deref config)) _ (λ r p. p)
            λ cfg.
              >>=-Keeps Stays (lift (check_config cfg)) _ (λ r p. p)
                λ _.
                  >>=-Keeps Stays (lift (deref ca_cert)) _ (λ r p. p)
                    λ ca.
                      >>=-Keeps Stays (gets (λ r. E.now r.world))
                        (λ (now : ℕ). sign E (template E cfg serial ca now) ca key ca_key)
                        (λ r p. p) λ now. sign-Stays (template E cfg serial ca now) ca key ca_key

  pub new_signed_cert_and_key-Stays :
      (config : Option CertConfig) (ca_cert : Option Certificate) (ca_key : Option Signer)
      → Keeps Stays (new_signed_cert_and_key E config ca_cert ca_key)
  unfolding new_signed_cert_and_key
  new_signed_cert_and_key-Stays config ca_cert ca_key =
      >>=-Keeps Stays (or_wrap _ (effect (E.generate_key rsa_key_size))) _
        (λ r p. S.generate_key-stored rsa_key_size r.world ∙ p)
        λ key.
          >>=-Keeps Stays (or_wrap _ (new_signed_cert E config key ca_cert ca_key)) _
            (new_signed_cert-Stays config key ca_cert ca_key) (λ cert r p. p)

  pub new_certificate_authority-Stays :
      (config : CertConfig) → Keeps Stays (new_certificate_authority E config)
  unfolding new_certificate_authority
  new_certificate_authority-Stays config =
      >>=-Keeps Stays (or_wrap _ (effect (E.generate_key rsa_key_size))) _
        (λ r p. S.generate_key-stored rsa_key_size r.world ∙ p)
        λ key.
          >>=-Keeps Stays (or_wrap _ (effect (E.new_self_signed_ca_cert config key))) _
            (λ r p. S.self_signed-stored config key r.world ∙ p) (λ cert r p. p)
