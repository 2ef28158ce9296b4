-- ===== src/Agent/Handlers/Refused.antt =====
-- At which requests the handlers of internal/upboundagent/proxy.go answer with an error, and which.
use mathlib.Core.Option.{some-injective}
use universal_crossplane.Base.{
  ℕ, String, ◌≡◌, ◌≢◌, refl, sym, ◌∙◌, ap, ◌↔◌, ◌⊎◌, inl, inr, Bool, true, false, Option, none,
  some, [], ◌∷◌, Error, new, errorf, wrap, Result, ok, err, panic, arith, eq_iff, Option-cases,
  Result-cases,
}
use universal_crossplane.Jwt.{ParseError, validation, other_error, cause, Parsed}
use universal_crossplane.Agent.Header.{Header}
use universal_crossplane.Agent.Config.{Config, TokenClaims}
use universal_crossplane.Agent.Token.{
  Jwt, review_invalid, review_parsed, review_token, err_invalid_token,
}
use universal_crossplane.Agent.Token.Laws.{
  presented, missing_error, Passes, parse, IsAccepted, review_token-given, review_token-missing,
  review_token_sound, review_token_complete,
}
use universal_crossplane.Agent.Impersonation.{
  ImpersonationConfig, config_for_claims, impersonation_config_for_user, get_impersonation_config,
  err_unable_to_validate_token, err_upbound_id_missing, err_invalid_env_id,
  err_failed_to_get_impersonation_config,
}
use universal_crossplane.Agent.Http.{Urls, Context, http_error, Proxy}
use universal_crossplane.Agent.Handlers.{
  status_bad_request, Outcome, k8s, k8s_with, xgql, xgql_with,
}

err_inj : {A : Type 0} {x y : Error} → ◌≡◌ {A = Result A} (err x) (err y) → x ≡ y
err_inj h = ground arith

module _ (jwt : Jwt) {CertPool : Type 0} (config : Config jwt.PublicKey CertPool) (now : ℕ) where
  open jwt use {StandardClaims, audience}

  -- The token is neither valid nor wrong only in its time of issue, and the error is the parser's.
  abbrev pub IsInvalid : Parsed (TokenClaims StandardClaims) → Error → Type 0
  IsInvalid p e =
      (p.token ≡ some false)
      × (¬ Passes jwt now p)
      × (cause_of : ParseError) × (p.error ≡ some cause_of)
      × (e ≡ wrap (cause cause_of) err_invalid_token)

  review_invalid-err_iff :
      (claims : TokenClaims StandardClaims) (x : ParseError) (e : Error)
      → (review_invalid jwt now claims (some x) ≡ err e) ↔ (
          (¬ Passes jwt now (record { token = some false; claims = claims; error = some x }))
          × (e ≡ wrap (cause x) err_invalid_token))
  unfolding review_invalid
  review_invalid-err_iff claims (validation bits x) e = ground arith
  review_invalid-err_iff claims (other_error x) e = ground arith

  review_parsed-err_iff :
      (claims : TokenClaims StandardClaims) (token : Option Bool) (error : Option ParseError)
      (e : Error)
      → (review_parsed jwt now claims token error ≡ err e)
        ↔ IsInvalid (record { token = token; claims = claims; error = error }) e
  unfolding review_parsed review_invalid
  review_parsed-err_iff claims none error e = ground arith
  review_parsed-err_iff claims (some true) error e = ground arith
  review_parsed-err_iff claims (some false) none e = ground arith
  review_parsed-err_iff claims (some false) (some x) e = (
    λ h. let (fails, is) = (review_invalid-err_iff claims x e).0 h in (refl, fails, x, refl, is),
    λ (_, fails, y, same, is).
        (review_invalid-err_iff claims x e).1
          (fails, is ∙ ap (λ z. wrap (cause z) err_invalid_token) (sym (some-injective x y same))),
  )

  config_for_claims-err_iff :
      (tc : TokenClaims StandardClaims) (e : Error)
      → (config_for_claims jwt config (some tc) ≡ err e) ↔ (
          ((audience tc.standard_claims ≢ config.control_plane_id)
            × (e
                ≡ errorf err_invalid_env_id
                    (audience tc.standard_claims ∷ config.control_plane_id ∷ [])))
          ⊎ ((audience tc.standard_claims ≡ config.control_plane_id)
              × (tc.payload.upbound_id ≡ "")
              × (e ≡ wrap (new err_upbound_id_missing) err_failed_to_get_impersonation_config)))
  unfolding config_for_claims impersonation_config_for_user
  config_for_claims-err_iff tc e = ground (
    arith,
    eq_iff (audience tc.standard_claims) config.control_plane_id,
    eq_iff tc.payload.upbound_id "",
  )

  -- Why a request gets no configuration, with the error that says so: it presents no token, or an
  -- invalid one, or an accepted one for another control plane, or one without a user.
  pub data IsRefused (headers : Header) (e : Error) : Type 0 where
    missing :
        presented headers ≡ none
        → e ≡ wrap (missing_error headers) err_unable_to_validate_token
        → IsRefused headers e
    invalid :
        (token : String) (cause_of : Error)
        → presented headers ≡ some token
        → IsInvalid (parse jwt config now token) cause_of
        → e ≡ wrap cause_of err_unable_to_validate_token
        → IsRefused headers e
    other_plane :
        (claims : TokenClaims StandardClaims)
        → IsAccepted jwt config now headers claims
        → audience claims.standard_claims ≢ config.control_plane_id
        → e
          ≡ errorf err_invalid_env_id
              (audience claims.standard_claims ∷ config.control_plane_id ∷ [])
        → IsRefused headers e
    no_user :
        (claims : TokenClaims StandardClaims)
        → IsAccepted jwt config now headers claims
        → audience claims.standard_claims ≡ config.control_plane_id
        → claims.payload.upbound_id ≡ ""
        → e ≡ wrap (new err_upbound_id_missing) err_failed_to_get_impersonation_config
        → IsRefused headers e

  config_for_claims-IsRefused :
      (headers : Header) (tc : TokenClaims StandardClaims) (e : Error)
      → review_token jwt config now headers ≡ ok (some tc)
      → config_for_claims jwt config (some tc) ≡ err e
      → IsRefused headers e
  config_for_claims-IsRefused headers tc e read h =
      let accepted = review_token_sound jwt config now headers tc read in
      elim ((config_for_claims-err_iff tc e).0 h) [
        | inl (other, is) ↦ other_plane tc accepted other is
        | inr (same, empty, is) ↦ no_user tc accepted same empty is
      ]

  review_token-IsRefused :
      (headers : Header) (x : Error)
      → review_token jwt config now headers ≡ err x
      → IsRefused headers (wrap x err_unable_to_validate_token)
  review_token-IsRefused headers x h = elim (Option-cases (presented headers)) [
    | inl absent ↦ missing absent (
        ap (λ z. wrap z err_unable_to_validate_token)
          (err_inj (sym h ∙ review_token-missing jwt config now headers absent)))
    | inr (token, given) ↦
        invalid token x given
          ((review_parsed-err_iff _ _ _ x).0
            (sym (review_token-given jwt config now headers token given) ∙ h))
          refl
  ]

  get_impersonation_config-refused :
      (headers : Header) (e : Error)
      → get_impersonation_config jwt config now headers ≡ err e
      → IsRefused headers e
  unfolding get_impersonation_config
  get_impersonation_config-refused headers e h =
      elim (Result-cases (review_token jwt config now headers)) [
        | inl (none, read) ↦ absurd (cc)
        | inl (some tc, read) ↦ config_for_claims-IsRefused headers tc e read (rw read at h)
        | inr (inl (x, failed)) ↦
            rw (← err_inj (rw failed at h)) (review_token-IsRefused headers x failed)
        | inr (inr panicked) ↦ absurd (cc)
      ]

  get_impersonation_config-IsRefused :
      (headers : Header) (e : Error)
      → IsRefused headers e
      → get_impersonation_config jwt config now headers ≡ err e
  unfolding get_impersonation_config
  get_impersonation_config-IsRefused headers e (missing absent is) =
      rw (review_token-missing jwt config now headers absent, is) refl
  get_impersonation_config-IsRefused headers e (invalid token x given faulty is) =
      let q = parse jwt config now token in
      rw
        (
          review_token-given jwt config now headers token given,
          (review_parsed-err_iff q.claims q.token q.error x).1 faulty,
          is,
        )
        refl
  get_impersonation_config-IsRefused headers e (other_plane tc accepted other is) =
      rw (review_token_complete jwt config now headers tc accepted)
        ((config_for_claims-err_iff tc e).1 (inl (other, is)))
  get_impersonation_config-IsRefused headers e (no_user tc accepted same empty is) =
      rw (review_token_complete jwt config now headers tc accepted)
        ((config_for_claims-err_iff tc e).1 (inr (same, empty, is)))

module _ (jwt : Jwt) {CertPool Transport : Type 0} (p : Proxy jwt.PublicKey CertPool Transport)
    (now : ℕ) (c : Context) (urls : Urls) where
  -- The handler answers with an error, which has status 400, and leaves the URLs.
  abbrev refusal : Error → Outcome CertPool Transport
  refusal e = (ok (http_error status_bad_request e), urls)

  with-refused_iff :
      (ic : Result ImpersonationConfig) (e : Error)
      → ((k8s_with jwt p c urls ic ≡ refusal e) ↔ (ic ≡ err e))
        × ((xgql_with jwt p c urls ic ≡ refusal e) ↔ (ic ≡ err e))
  unfolding k8s_with xgql_with
  with-refused_iff (ok ic) e = ground arith
  with-refused_iff (err x) e = ground arith
  with-refused_iff panic e = ground arith

  -- Each of the handlers `k8s` and `xgql` answers with a given error, which has status 400, and
  -- leaves the URLs exactly where the request presents no bearer token, or one that is neither
  -- valid nor wrong only in its time of issue and for which the parser gives an error, or an
  -- accepted one whose audience is not this control plane, or one for it whose payload has no
  -- Upbound id, and the error is the one for that.
  pub handlers_refused_iff :
      (e : Error)
      → ((k8s jwt p now c urls ≡ refusal e) ↔ IsRefused jwt p.config now c.request.header e)
        × ((xgql jwt p now c urls ≡ refusal e) ↔ IsRefused jwt p.config now c.request.header e)
  unfolding k8s xgql
  handlers_refused_iff e =
      let (by_k8s, by_xgql) = with-refused_iff _ e in
      let sound = get_impersonation_config-refused jwt p.config now c.request.header e in
      let complete = get_impersonation_config-IsRefused jwt p.config now c.request.header e in
      (
        (λ h. sound (by_k8s.0 h), λ r. by_k8s.1 (complete r)),
        (λ h. sound (by_xgql.0 h), λ r. by_xgql.1 (complete r)),
      )
