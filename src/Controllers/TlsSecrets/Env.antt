-- ===== src/Controllers/TlsSecrets/Env.antt =====
-- What internal/controllers/tlssecrets/reconciler.go takes from elsewhere: cryptography, PEM
-- coding, the API server and the recorder of events; and the configurations of its certificates.
use universal_crossplane.Base.{ℕ, ◌+◌, ◌*◌, String, Bool, Option, List, [], ◌∷◌, Error, Result}
use universal_crossplane.Base.Dict.{Dict}
use universal_crossplane.Controllers.Kube.{NamespacedName, Secret}

abbrev pub name_upbound : String
name_upbound = "upbound"

abbrev pub cn_agent : String
cn_agent = "upbound-agent"

abbrev pub cn_xgql : String
cn_xgql = "xgql"

abbrev pub err_get_secret : String
err_get_secret = "failed to get cert secret"

abbrev pub err_get_ca_secret : String
err_get_ca_secret = "failed get ca secret"

abbrev pub err_init_ca : String
err_init_ca = "failed to initialize ca"

abbrev pub err_update_ca_secret : String
err_update_ca_secret = "failed to update ca secret"

abbrev pub err_update_cert_secret : String
err_update_cert_secret = "failed to update secret for certificate data"

abbrev pub reason_ca : String
reason_ca = "InitializingCA"

abbrev pub reason_generate : String
reason_generate = "GeneratingCertificates"

abbrev pub reason_sync : String
reason_sync = "SyncCerts"

abbrev pub reason_update : String
reason_update = "UpdatingSecret"

-- `certutil.Config`, without the IP addresses, which no configuration sets.
pub record CertConfig : Type 0 where
  pub common_name : String
  pub organization : List String
  pub dns_names : List String
  pub usages : List ℕ

-- The fields of `x509.Certificate` that `newSignedCert` sets. Times are in nanoseconds.
pub record Template : Type 0 where
  pub common_name : String
  pub organization : List String
  pub dns_names : List String
  pub serial_number : ℕ
  pub not_before : ℕ
  pub not_after : ℕ
  pub key_usage : ℕ
  pub ext_key_usage : List ℕ

pub record PemBlock : Type 0 where
  pub block_type : String
  pub bytes : String

pub data EventType : Type 0 where
  normal warning : EventType

pub record Event : Type 0 where
  pub event_type : EventType
  pub reason : String
  pub message : String
  pub cause : Option Error

-- `World` is the API server, the clock and the source of random numbers. A signer is an RSA key;
-- `PrivateKey` is what a PEM file may hold.
pub record Env : Type 1 where
  pub World : Type 0
  pub Certificate : Type 0
  pub Signer : Type 0
  pub PublicKey : Type 0
  pub PrivateKey : Type 0
  pub generate_key : ℕ → World → Result Signer × World
  pub rand_int : ℕ → World → Result ℕ × World
  pub now : World → ℕ
  pub new_self_signed_ca_cert : CertConfig → Signer → World → Result Certificate × World
  pub create_certificate :
      Template → Certificate → PublicKey → Option Signer → World → Result String × World
  pub parse_certificate : String → Result Certificate
  pub public : Signer → PublicKey
  pub not_before : Certificate → ℕ
  pub raw : Certificate → String
  pub encode_to_memory : PemBlock → String
  pub marshal_private_key_to_pem : Signer → Result String
  pub parse_private_key_pem : String → Result PrivateKey
  pub as_rsa : PrivateKey → Option Signer
  pub parse_certs_pem : String → Result (List Certificate)
  pub get_secret : NamespacedName → World → Result Secret × World
  pub update_secret : Secret → World → Result (Unit {0}) × World
  pub create_or_update : Secret → (Secret → Secret) → World → Result (Unit {0}) × World
  pub is_not_found : Error → Bool
  pub record_event : Secret → Event → World → World

abbrev pub certificate_block_type : String
certificate_block_type = "CERTIFICATE"

abbrev pub rsa_key_size : ℕ
rsa_key_size = 2048

-- Ten years of 365 days, in nanoseconds.
abbrev pub certificate_validity : ℕ
certificate_validity = 3600 * 1000000000 * 24 * 365 * 10

abbrev pub key_ca_cert : String
key_ca_cert = "ca.crt"

abbrev pub key_tls_cert : String
key_tls_cert = "tls.crt"

abbrev pub key_tls_key : String
key_tls_key = "tls.key"

abbrev pub secret_name_ca : String
secret_name_ca = "uxp-ca"

abbrev pub secret_name_gateway_tls : String
secret_name_gateway_tls = "upbound-agent-tls"

abbrev pub secret_name_xgql_tls : String
secret_name_xgql_tls = "xgql-tls"

-- `x509.ExtKeyUsageServerAuth`
abbrev pub ext_key_usage_server_auth : ℕ
ext_key_usage_server_auth = 1

-- `x509.KeyUsageKeyEncipherment | x509.KeyUsageDigitalSignature`
abbrev pub key_usage : ℕ
key_usage = 4 + 1

abbrev pub ca_config : CertConfig
ca_config = record {
  common_name = name_upbound;
  organization = name_upbound ∷ [];
  dns_names = [];
  usages = [];
}

abbrev pub agent_config : CertConfig
agent_config = record {
  common_name = cn_agent;
  organization = [];
  dns_names = cn_agent ∷ "tenant-gateway" ∷ [];
  usages = ext_key_usage_server_auth ∷ [];
}

abbrev pub xgql_config : CertConfig
xgql_config = record {
  common_name = cn_xgql;
  organization = [];
  dns_names = cn_xgql ∷ [];
  usages = ext_key_usage_server_auth ∷ [];
}

-- `certConfigs`
abbrev pub cert_configs : Dict CertConfig
cert_configs = (secret_name_gateway_tls, agent_config) ∷ (secret_name_xgql_tls, xgql_config) ∷ []
