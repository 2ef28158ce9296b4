-- ===== src/Agent/Impersonation/Laws.antt =====
-- Whom the proxy impersonates.
use universal_crossplane.Base.{
  ℕ, ◌≡◌, ◌≢◌, ◌↔◌, none, some, inl, inr, ok, arith, eq_iff, Result-cases,
}
use universal_crossplane.Agent.Header.{Header}
use universal_crossplane.Agent.Config.{Config, TokenClaims}
use universal_crossplane.Agent.Token.{Jwt, review_token}
use universal_crossplane.Agent.Token.Laws.{IsAccepted, review_token_sound, review_token_complete}
use universal_crossplane.Agent.Impersonation.{
  ImpersonationConfig, config_for, impersonation_config_for_user, config_for_claims,
  get_impersonation_config,
}

module _ (jwt : Jwt) {CertPool : Type 0} (config : Config jwt.PublicKey CertPool) (now : ℕ) where
  open jwt use {StandardClaims, audience}

  -- The request presents an accepted token for this control plane, with a user in it, and the
  -- configuration is that user's.
  pub record IsGranted (headers : Header) (ic : ImpersonationConfig) : Type 0 where
    pub claims : TokenClaims StandardClaims
    pub accepted : IsAccepted jwt config now headers claims
    pub for_us : audience claims.standard_claims ≡ config.control_plane_id
    pub has_user : claims.payload.upbound_id ≢ ""
    pub granted : ic ≡ config_for claims.payload

  config_for_claims_iff :
      (tc : TokenClaims StandardClaims) (ic : ImpersonationConfig)
      → (config_for_claims jwt config (some tc) ≡ ok ic) ↔ (
          (audience tc.standard_claims ≡ config.control_plane_id)
          × (tc.payload.upbound_id ≢ "")
          × (ic ≡ config_for tc.payload))
  unfolding config_for_claims impersonation_config_for_user
  config_for_claims_iff tc ic = ground (
    arith,
    eq_iff (audience tc.standard_claims) config.control_plane_id,
    eq_iff tc.payload.upbound_id "",
  )

  pub get_impersonation_config_sound :
      (headers : Header) (ic : ImpersonationConfig)
      → get_impersonation_config jwt config now headers ≡ ok ic
      → IsGranted headers ic
  unfolding get_impersonation_config
  get_impersonation_config_sound headers ic h =
      elim (Result-cases (review_token jwt config now headers)) [
        | inl (none, e) ↦ absurd (cc)
        | inl (some tc, e) ↦
            let (for_us, has_user, granted) = (config_for_claims_iff tc ic).0 (rw e at h) in
            record {
              claims = tc;
              accepted = review_token_sound jwt config now headers tc e;
              for_us = for_us;
              has_user = has_user;
              granted = granted;
            }
        | inr (inl (e, failed)) ↦ absurd (cc)
        | inr (inr panicked) ↦ absurd (cc)
      ]

  pub get_impersonation_config_complete :
      (headers : Header) (ic : ImpersonationConfig)
      → IsGranted headers ic
      → get_impersonation_config jwt config now headers ≡ ok ic
  unfolding get_impersonation_config
  get_impersonation_config_complete headers ic g =
      rw (review_token_complete jwt config now headers g.claims g.accepted)
        ((config_for_claims_iff g.claims ic).1 (g.for_us, g.has_user, g.granted))

  -- A request gets a configuration exactly where it presents an accepted token whose audience is
  -- this control plane and whose payload has an Upbound id; it is that of the cloud impersonator,
  -- with the groups of the payload and that of all authenticated users, and the id as an extra.
  pub get_impersonation_config_iff :
      (headers : Header) (ic : ImpersonationConfig)
      → (get_impersonation_config jwt config now headers ≡ ok ic) ↔ IsGranted headers ic
  get_impersonation_config_iff headers ic =
      (get_impersonation_config_sound headers ic, get_impersonation_config_complete headers ic)
