-- ===== src/Commands/UpboundAgent/Env.antt =====
-- The flags of cmd/upbound-agent/main.go, and what it takes from elsewhere.
use universal_crossplane.Base.{ℕ, String, Bool, Option, Error, Result, ◌⊎◌}
use universal_crossplane.Base.Dict.{Dict}
use universal_crossplane.Base.Effects.{Eff}
use universal_crossplane.Jwt.{Parsed, Claim}
use universal_crossplane.Clients.Upbound.{Resty}
use universal_crossplane.Agent.Runtime.{Runtime}

-- `AgentCmd`, with the flag for debugging.
pub record AgentCmd : Type 0 where
  pub debug : Bool
  pub pod_name : String
  pub server_port : String
  pub tls_cert_file : String
  pub tls_key_file : String
  pub xgql_ca_bundle_file : String
  pub nats_endpoint : String
  pub upbound_api_endpoint : String
  pub control_plane_token_path : String

-- Files, `jwt.Parse` without a key function, X.509 and the client of Kubernetes.
pub record AgentEnv (R : Runtime) : Type 1 where
  pub Float : Type 0
  pub Kube : Type 0
  pub resty : Resty R.nats.World
  pub read_file : String → R.nats.World → (Error ⊎ String) × R.nats.World
  pub clean : String → String
  pub is_not_exist : Error → Bool
  pub jwt_parse : String → Parsed (Dict (Claim Float))
  pub malformed : ℕ
  pub parse_rsa_public_key_from_pem : String → Result R.PublicKey
  pub append_certs_from_pem : String → Option R.CertPool
  pub get_config : Eff R.nats.World R.RestConfig
  pub new_kube : R.RestConfig → Result Kube
  pub get_namespace_uid : Kube → String → Eff R.nats.World String
