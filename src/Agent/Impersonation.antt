-- ===== src/Agent/Impersonation.antt =====
-- `getImpersonationConfig` and `impersonationConfigForUser` of internal/upboundagent/proxy.go.
pub mod Laws
use universal_crossplane.Base.{
  ℕ, String, Option, none, some, List, [], ◌∷◌, ◌++◌, Error, new, errorf, wrap, Result, ok, err,
  panic, ◌>>=◌, wrapped, ◌==◌, if◌then◌else◌,
}
use universal_crossplane.Base.Dict.{Dict}
use universal_crossplane.Agent.Header.{Header}
use universal_crossplane.Agent.Config.{Config, CrossplaneAccessor, TokenClaims}
use universal_crossplane.Agent.Token.{Jwt, review_token}

-- `transport.ImpersonationConfig` of client-go.
pub record ImpersonationConfig : Type 0 where
  pub user_name : String
  pub groups : List String
  pub extra : Dict (List String)

abbrev pub err_unable_to_validate_token : String
err_unable_to_validate_token = "unable to validate token"

abbrev pub err_upbound_id_missing : String
err_upbound_id_missing = "upboundID is missing"

abbrev pub err_invalid_env_id : String
err_invalid_env_id = "invalid environment id: %s, expecting: %s"

abbrev pub err_failed_to_get_impersonation_config : String
err_failed_to_get_impersonation_config = "failed to get impersonation config"

abbrev pub group_system_authenticated : String
group_system_authenticated = "system:authenticated"

abbrev pub impersonator_user_upbound_cloud : String
impersonator_user_upbound_cloud = "upbound-cloud-impersonator"

abbrev pub impersonator_extra_key_upbound_id : String
impersonator_extra_key_upbound_id = "upbound-id"

-- The configuration that a user with an id gets.
abbrev pub config_for : CrossplaneAccessor → ImpersonationConfig
config_for ca = record {
  user_name = impersonator_user_upbound_cloud;
  groups = ca.groups ++ (group_system_authenticated ∷ []);
  extra = (impersonator_extra_key_upbound_id, ca.upbound_id ∷ []) ∷ [];
}

unfoldable pub impersonation_config_for_user : CrossplaneAccessor → Result ImpersonationConfig
impersonation_config_for_user ca =
    if ca.upbound_id == "" then err (new err_upbound_id_missing) else ok (config_for ca)

module _ (jwt : Jwt) {CertPool : Type 0} where
  open jwt use {PublicKey, StandardClaims, audience}

  -- What follows the review; nil claims are dereferenced.
  unfoldable pub config_for_claims :
      Config PublicKey CertPool → Option (TokenClaims StandardClaims) → Result ImpersonationConfig
  unfolding impersonation_config_for_user
  config_for_claims config none = panic
  config_for_claims config (some tc) =
      let cid = audience tc.standard_claims in
      if cid == config.control_plane_id
      then wrapped err_failed_to_get_impersonation_config (impersonation_config_for_user tc.payload)
      else err (errorf err_invalid_env_id (cid ∷ config.control_plane_id ∷ []))

  unfoldable pub get_impersonation_config :
      Config PublicKey CertPool → ℕ → Header → Result ImpersonationConfig
  unfolding config_for_claims review_token
  get_impersonation_config config now headers = do
    tc ← wrapped err_unable_to_validate_token (review_token jwt config now headers)
    config_for_claims config tc
