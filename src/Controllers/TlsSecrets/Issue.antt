-- ===== src/Controllers/TlsSecrets/Issue.antt =====
-- `newCertificateAuthority`, `newSignedCertAndKey` and `newSignedCert` of
-- internal/controllers/tlssecrets/reconciler.go.
pub mod Laws
pub mod Quiet
pub mod Works
pub mod Calm
use universal_crossplane.Base.{
  ℕ, ◌+◌, String, Option, none, some, List, [], ◌∷◌, Error, new, Result, ok, err, panic, ◌==◌,
  if◌then◌else◌,
}
use universal_crossplane.Controllers.TlsSecrets.Env.{
  Env, CertConfig, Template, rsa_key_size, key_usage, certificate_validity,
}
use universal_crossplane.Controllers.TlsSecrets.Monad.{
  M, ◌>>=◌, ◌>>◌, pure, lift, effect, gets, or_wrap,
}

-- `math.MaxInt64`, the bound of the serial numbers.
abbrev pub max_int64 : ℕ
max_int64 = 9223372036854775807

-- A pointer that is dereferenced.
abbrev deref : {A : Type 0} → Option A → Result A
deref none = panic
deref (some a) = ok a

-- The two checks of the configuration in `newSignedCert`.
unfoldable pub check_config : CertConfig → Result (Unit {0})
check_config cfg =
    if cfg.common_name == ""
    then err (new "must specify a CommonName")
    else elim cfg.usages [ [] ↦ err (new "must specify at least one ExtKeyUsage") | u ∷ us ↦ ok tt ]

module _ (E : Env) where
  open E use {Certificate, Signer}

  unfoldable pub new_certificate_authority : CertConfig → M E (Certificate × Signer)
  new_certificate_authority config = do
    key ←
        or_wrap "unable to create private key while generating CA certificate"
          (effect (E.generate_key rsa_key_size))
    cert ←
        or_wrap "unable to create self-signed CA certificate"
          (effect (E.new_self_signed_ca_cert config key))
    pure (cert, key)

  -- The certificate that is asked for.
  abbrev pub template : CertConfig → ℕ → Certificate → ℕ → Template
  template cfg serial ca_cert now = record {
    common_name = cfg.common_name;
    organization = cfg.organization;
    dns_names = cfg.dns_names;
    serial_number = serial;
    not_before = E.not_before ca_cert;
    not_after = now + certificate_validity;
    key_usage = key_usage;
    ext_key_usage = cfg.usages;
  }

  -- The end of `newSignedCert`.
  sign : Template → Certificate → Signer → Option Signer → M E Certificate
  sign tmpl ca key ca_key = do
    der ← effect (E.create_certificate tmpl ca (E.public key) ca_key)
    lift (E.parse_certificate der)

  unfoldable pub new_signed_cert :
      Option CertConfig → Signer → Option Certificate → Option Signer → M E Certificate
  unfolding check_config sign
  new_signed_cert config key ca_cert ca_key = do
    serial ← effect (E.rand_int max_int64)
    cfg ← lift (deref config)
    lift (check_config cfg)
    ca ← lift (deref ca_cert)
    now ← gets (λ r. E.now r.world)
    sign (template cfg serial ca now) ca key ca_key

  unfoldable pub new_signed_cert_and_key :
      Option CertConfig → Option Certificate → Option Signer → M E (Certificate × Signer)
  unfolding new_signed_cert
  new_signed_cert_and_key config ca_cert ca_key = do
    key ← or_wrap "unable to create private key" (effect (E.generate_key rsa_key_size))
    cert ← or_wrap "unable to sign certificate" (new_signed_cert config key ca_cert ca_key)
    pure (cert, key)
