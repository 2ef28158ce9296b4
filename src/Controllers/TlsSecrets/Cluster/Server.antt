-- ===== src/Controllers/TlsSecrets/Cluster/Server.antt =====
-- What the clients of the watched secrets find in their certificates.
use mathlib.Core.Option.{some-injective}
use universal_crossplane.Base.{
  ℕ, ◌+◌, ◌<◌, String, ◌≡◌, sym, ap, ◌∙◌, inl, inr, true, some, List, [], ◌∷◌, ok, ◌==◌,
  if◌then◌else◌,
}
use universal_crossplane.Base.Dict.{lookup}
use universal_crossplane.Agent.Constants.{service_xgql}
use universal_crossplane.Controllers.Kube.{Secret, entries}
use universal_crossplane.Controllers.TlsSecrets.Env.{
  Env, Template, CertConfig, cert_configs, certificate_validity, ext_key_usage_server_auth,
  secret_name_xgql_tls,
}
use universal_crossplane.Controllers.TlsSecrets.Store.{IsStore}
use universal_crossplane.Controllers.TlsSecrets.Monad.{Reconciler}
use universal_crossplane.Controllers.TlsSecrets.SecretData.{cert_from_tls_secret_data}
use universal_crossplane.Controllers.TlsSecrets.SecretData.Laws.{IsLawful}
use universal_crossplane.Controllers.TlsSecrets.Setup.{watches, watches-cases}
use universal_crossplane.Controllers.TlsSecrets.Issue.{max_int64}
use universal_crossplane.Controllers.TlsSecrets.Reconcile.{ca_name}
use universal_crossplane.Controllers.TlsSecrets.Reconcile.Authority.{IsAuthority}
use universal_crossplane.Controllers.TlsSecrets.Cluster.{at, IsAtomic, IsBacked}
use universal_crossplane.Controllers.TlsSecrets.Cluster.Stable.{HasCert}
use universal_crossplane.Controllers.TlsSecrets.Cluster.Histories.{Steps, IsFresh, history-IsBacked}

-- The names by which a client reaches the server that uses the secret.
abbrev pub hosts : String → List String
hosts name =
    if name == secret_name_xgql_tls
    then service_xgql ∷ []
    else "upbound-agent" ∷ "tenant-gateway" ∷ []

-- What is assumed of crypto: a certificate that was created has the fields of its template and the
-- given public key, and its signature is verified by the public key of the signer; a random number
-- is less than its bound.
pub record IsX509 (E : Env) : Type 1 where
  pub dns_names : E.Certificate → List String
  pub ext_key_usage : E.Certificate → List ℕ
  pub serial_number : E.Certificate → ℕ
  pub not_after : E.Certificate → ℕ
  pub public_key : E.Certificate → E.PublicKey
  pub Verifies : E.PublicKey → E.Certificate → Type 0
  pub created :
      (t : Template) (c : E.Certificate) (p : E.PublicKey) (k : E.Signer) (w : E.World)
      (der : String) (cert : E.Certificate)
      → (E.create_certificate t c p (some k) w).0 ≡ ok der
      → E.parse_certificate der ≡ ok cert
      → (dns_names cert ≡ t.dns_names)
        × (ext_key_usage cert ≡ t.ext_key_usage)
        × (serial_number cert ≡ t.serial_number)
        × (not_after cert ≡ t.not_after)
        × (public_key cert ≡ p)
        × Verifies (E.public k) cert
  pub drawn-lt : (n : ℕ) (w : E.World) (i : ℕ) → (E.rand_int n w).0 ≡ ok i → i < n

module _ (E : Env) (L : IsLawful E) (S : IsStore E) (T : IsAtomic E S) (X : IsX509 E) where
  open S use {stored}

  -- The secret holds the key and the certificate of a server, signed by the stored authority.
  pub record IsServer (namespace name : String) (r : Reconciler E) (s : Secret) : Type 0 where
    pub cert : E.Certificate
    pub key : E.Signer
    pub cas : Secret
    pub ca_cert : E.Certificate
    pub ca_key : E.Signer
    pub made_in : E.World
    pub saved : stored r.world (ca_name namespace) ≡ some cas
    pub authority : IsAuthority E cas ca_cert ca_key
    pub readable :
        cert_from_tls_secret_data E (entries s.contents) ≡ ok (cert, some key, some ca_cert)
    pub verifies : X.Verifies (E.public ca_key) cert
    pub matches : X.public_key cert ≡ E.public key
    pub reached : X.dns_names cert ≡ hosts name
    pub usage : X.ext_key_usage cert ≡ ext_key_usage_server_auth ∷ []
    pub serial : X.serial_number cert < max_int64
    pub expires : X.not_after cert ≡ E.now made_in + certificate_validity

  -- The configuration of a watched name is that of a server for its hosts.
  configured-hosts :
      (name : String) (cfg : CertConfig)
      → watches name ≡ true
      → lookup name cert_configs ≡ some cfg
      → (cfg.dns_names ≡ hosts name) × (cfg.usages ≡ ext_key_usage_server_auth ∷ [])
  unfolding lookup
  configured-hosts name cfg watched h = elim (watches-cases name watched) [
    | inl same ↦
        let is = some-injective _ cfg (rw same at h) in
        rw same (sym (ap (λ c. c.dns_names) is), sym (ap (λ c. c.usages) is))
    | inr same ↦
        let is = some-injective _ cfg (rw same at h) in
        rw same (sym (ap (λ c. c.dns_names) is), sym (ap (λ c. c.usages) is))
  ]

  IsBacked-IsServer :
      (namespace name : String) (r : Reconciler E) (s : Secret)
      → watches name ≡ true
      → IsBacked E S namespace name (stored r.world) s
      → IsServer namespace name r s
  IsBacked-IsServer namespace name r s watched b =
      let i = b.is_signed in
      let (names, usage, serial, expires, matches, verifies) =
        X.created _ _ _ b.ca_key i.world i.der b.cert i.created i.parsed in
      let (hosts_are, usages_are) = configured-hosts name i.cfg watched i.configured in
      record {
        cert = b.cert;
        key = b.key;
        cas = b.cas;
        ca_cert = b.ca_cert;
        ca_key = b.ca_key;
        made_in = i.world;
        saved = b.saved;
        authority = b.authority;
        readable = b.readable;
        verifies = verifies;
        matches = matches;
        reached = names ∙ hosts_are;
        usage = usage ∙ usages_are;
        serial = rw serial (X.drawn-lt max_int64 i.before i.serial i.drawn);
        expires = expires;
      }

  -- With lawful PEM coders, an API server as before, and crypto whose certificates have the fields
  -- of their templates, are verified by the public key of their signer, and whose random numbers
  -- are below their bound: after any history as that of `history-ShareAuthority`, a watched secret
  -- that has a certificate can be read as that certificate, its key and the certificate of the
  -- authority that is stored. The certificate is verified by the public key of that authority's key
  -- and has that of its own key; its names are those of the servers that use the secret, which for
  -- xgql is the host that the agent connects to; its usage is that of a server; its serial number
  -- is less than 2^63 - 1; and it expires ten years of 365 days after what the clock showed in some
  -- world.
  pub history-IsServer :
      (namespace name : String) {q r : Reconciler E} (s : Secret)
      → IsFresh E S namespace L T q
      → Steps E S namespace q r
      → watches name ≡ true
      → stored r.world (at namespace name) ≡ some s
      → HasCert s
      → IsServer namespace name r s
  history-IsServer namespace name {r = r} s fresh steps watched there has_cert =
      IsBacked-IsServer namespace name r s watched
        (history-IsBacked E S namespace L T name s fresh steps watched there has_cert)
