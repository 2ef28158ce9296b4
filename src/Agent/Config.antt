-- ===== src/Agent/Config.antt =====
-- internal/upboundagent/config.go and internal/upboundagent/internal/upboundapi.go.
use universal_crossplane.Base.{String, Bool, Option, List}

-- The NATS client's configuration.
pub record NatsClientConfig : Type 0 where
  pub name : String
  pub endpoint : String
  pub jwt_endpoint : String
  pub control_plane_token : String
  pub ca_bundle : String

-- `Config`, over the types of RSA public keys and of certificate pools. A nil pool is `none`.
pub record Config (PublicKey CertPool : Type 0) : Type 0 where
  pub debug_mode : Bool
  pub control_plane_id : String
  pub token_rsa_public_key : PublicKey
  pub xgql_ca_cert_pool : Option CertPool
  pub nats : NatsClientConfig

pub record CrossplaneAccessor : Type 0 where
  pub groups : List String
  pub upbound_id : String

-- `TokenClaims`, over the type of jwt-go's standard claims.
pub record TokenClaims (StandardClaims : Type 0) : Type 0 where
  pub payload : CrossplaneAccessor
  pub standard_claims : StandardClaims
