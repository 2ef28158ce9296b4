-- ===== src/Controllers/TlsSecrets/Issue/Calm.antt =====
-- That the issue of certificates does not panic.
use universal_crossplane.Base.{◌≡◌, Option, some, ok, arith}
use universal_crossplane.Base.Effects.{or_wrap}
use universal_crossplane.Base.Effects.Calm.{IsCalm, >>=-IsCalm, or_wrap-IsCalm}
use universal_crossplane.Controllers.TlsSecrets.Env.{
  Env, CertConfig, Template, ca_config, rsa_key_size,
}
use universal_crossplane.Controllers.TlsSecrets.Calm.{IsCalmEnv}
use universal_crossplane.Controllers.TlsSecrets.Monad.{Reconciler, effect}
use universal_crossplane.Controllers.TlsSecrets.Issue.{
  max_int64, check_config, template, sign, new_signed_cert, new_signed_cert_and_key,
  new_certificate_authority,
}
use universal_crossplane.Controllers.TlsSecrets.Issue.Works.{IsUsableConfig}

module _ (E : Env) (N : IsCalmEnv E) where
  open E use {Certificate, Signer}

  pub new_certificate_authority-IsCalm :
      (q : Reconciler E) → IsCalm (new_certificate_authority E ca_config q)
  unfolding new_certificate_authority
  new_certificate_authority-IsCalm q =
      >>=-IsCalm (or_wrap _ (effect (E.generate_key rsa_key_size))) _ q
        (or_wrap-IsCalm _ (effect (E.generate_key rsa_key_size)) q
          (N.generate_key rsa_key_size q.world))
        (λ key r h.
          >>=-IsCalm (or_wrap _ (effect (E.new_self_signed_ca_cert ca_config key))) _ r
            (or_wrap-IsCalm _ (effect (E.new_self_signed_ca_cert ca_config key)) r
              (N.new_self_signed_ca_cert ca_config key r.world))
            (λ cert r' h' e. cc e))

  sign-IsCalm :
      (t : Template) (ca : Certificate) (key k : Signer) (q : Reconciler E)
      → IsCalm (sign E t ca key (some k) q)
  unfolding sign
  sign-IsCalm t ca key k q =
      >>=-IsCalm (effect (E.create_certificate t ca (E.public key) (some k))) _ q
        (N.create_certificate t ca (E.public key) k q.world) (λ der r h. N.parse_certificate der)

  new_signed_cert-IsCalm :
      (cfg : CertConfig) (key : Signer) (ca : Certificate) (k : Signer) (q : Reconciler E)
      → check_config cfg ≡ ok tt
      → IsCalm (new_signed_cert E (some cfg) key (some ca) (some k) q)
  unfolding new_signed_cert
  new_signed_cert-IsCalm cfg key ca k q checked =
      >>=-IsCalm (effect (E.rand_int max_int64)) _ q (N.rand_int max_int64 q.world (omega arith))
        (λ serial r h.
          rw checked (sign-IsCalm (template E cfg serial ca (E.now r.world)) ca key k r))

  pub new_signed_cert_and_key-IsCalm :
      (config : Option CertConfig) (ca : Certificate) (k : Signer) (q : Reconciler E)
      → IsUsableConfig config
      → IsCalm (new_signed_cert_and_key E config (some ca) (some k) q)
  unfolding new_signed_cert_and_key
  new_signed_cert_and_key-IsCalm config ca k q (cfg, is, checked) = rw is (
      >>=-IsCalm (or_wrap _ (effect (E.generate_key rsa_key_size))) _ q
        (or_wrap-IsCalm _ (effect (E.generate_key rsa_key_size)) q
          (N.generate_key rsa_key_size q.world))
        (λ key r h.
          >>=-IsCalm (or_wrap _ (new_signed_cert E (some cfg) key (some ca) (some k))) _ r
            (or_wrap-IsCalm _ (new_signed_cert E (some cfg) key (some ca) (some k)) r
              (new_signed_cert-IsCalm cfg key ca k r checked))
            (λ cert r' h' e. cc e)))
