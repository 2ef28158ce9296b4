-- ===== src/Agent/Handlers/Panics.antt =====
-- At which requests the handlers of internal/upboundagent/proxy.go panic.
use mathlib.Core.Option.{some-injective}
use universal_crossplane.Base.{
  ℕ, String, ◌≡◌, sym, ◌∙◌, ◌↔◌, ◌⊎◌, inl, inr, Bool, true, false, Option, none, some, Result, ok,
  err, panic, arith, Option-cases, Result-cases,
}
use universal_crossplane.Jwt.{ParseError, validation, other_error, Parsed}
use universal_crossplane.Agent.Header.{Header}
use universal_crossplane.Agent.Config.{Config, TokenClaims}
use universal_crossplane.Agent.Token.{Jwt, review_invalid, review_parsed, review_token}
use universal_crossplane.Agent.Token.Laws.{
  presented, parse, review_token-given, review_token-missing,
}
use universal_crossplane.Agent.Impersonation.{
  ImpersonationConfig, config_for_claims, impersonation_config_for_user, get_impersonation_config,
}
use universal_crossplane.Agent.Http.{Urls, Context, Proxy}
use universal_crossplane.Agent.Handlers.{k8s, k8s_with, xgql, xgql_with}

-- There is no token, or one that is not valid although there is no error.
abbrev pub IsFaulty : {C : Type 0} → Parsed C → Type 0
IsFaulty p = (p.token ≡ none) ⊎ ((p.token ≡ some false) × (p.error ≡ none))

-- A review that panics, or that gives nil claims without an error.
abbrev IsNil : {A : Type 0} → Result (Option A) → Type 0
IsNil x = (x ≡ panic) ⊎ (x ≡ ok none)

module _ (jwt : Jwt) {CertPool : Type 0} (config : Config jwt.PublicKey CertPool) (now : ℕ) where
  open jwt use {StandardClaims}

  review_parsed-IsNil :
      (claims : TokenClaims StandardClaims) (token : Option Bool) (error : Option ParseError)
      → IsNil (review_parsed jwt now claims token error)
        ↔ IsFaulty (record { token = token; claims = claims; error = error })
  unfolding review_parsed review_invalid
  review_parsed-IsNil claims none error = ground arith
  review_parsed-IsNil claims (some true) error = ground arith
  review_parsed-IsNil claims (some false) none = ground arith
  review_parsed-IsNil claims (some false) (some (validation bits e)) = ground arith
  review_parsed-IsNil claims (some false) (some (other_error e)) = ground arith

  config_for_claims-ne_panic :
      (tc : TokenClaims StandardClaims) → config_for_claims jwt config (some tc) ≡ panic → ⊥
  unfolding config_for_claims impersonation_config_for_user
  config_for_claims-ne_panic tc h = ground arith

  -- The request presents a bearer token of which the parser makes a faulty answer.
  abbrev pub PresentsFaulty : Header → Type 0
  PresentsFaulty headers =
      (token : String) × (presented headers ≡ some token) × IsFaulty (parse jwt config now token)

  review_token-IsNil :
      (headers : Header) → IsNil (review_token jwt config now headers) ↔ PresentsFaulty headers
  review_token-IsNil headers = elim (Option-cases (presented headers)) [
    | inl absent ↦
        let missing = review_token-missing jwt config now headers absent in
        (λ nil. absurd (ground arith), λ (token, given, _). absurd (cc))
    | inr (token, given) ↦
        let is = review_token-given jwt config now headers token given in
        rw is (
          λ nil. (token, given, (review_parsed-IsNil _ _ _).0 nil),
          λ (other, same, faulty).
              (review_parsed-IsNil _ _ _).1
                (rw (some-injective other token (sym same ∙ given)) at faulty),
        )
  ]

  get_impersonation_config-panic :
      (headers : Header)
      → (get_impersonation_config jwt config now headers ≡ panic)
        ↔ IsNil (review_token jwt config now headers)
  unfolding get_impersonation_config config_for_claims
  get_impersonation_config-panic headers =
      elim (Result-cases (review_token jwt config now headers)) [
        | inl (none, e) ↦ rw e (ground arith)
        | inl (some tc, e) ↦
            rw e (λ h. absurd (config_for_claims-ne_panic tc h), λ nil. absurd (ground arith))
        | inr (inl (e, failed)) ↦ rw failed (ground arith)
        | inr (inr panicked) ↦ rw panicked (ground arith)
      ]

module _ (jwt : Jwt) {CertPool Transport : Type 0} (p : Proxy jwt.PublicKey CertPool Transport)
    (now : ℕ) (c : Context) (urls : Urls) where
  with-panic_iff :
      (ic : Result ImpersonationConfig)
      → (((k8s_with jwt p c urls ic).0 ≡ panic) ↔ (ic ≡ panic))
        × (((xgql_with jwt p c urls ic).0 ≡ panic) ↔ (ic ≡ panic))
  unfolding k8s_with xgql_with
  with-panic_iff (ok ic) = ground arith
  with-panic_iff (err e) = ground arith
  with-panic_iff panic = ground arith

  -- Each of the handlers `k8s` and `xgql` panics exactly at a request that presents a bearer token
  -- for which the parser returns no token, or one that is not valid without an error.
  pub handlers_panic_iff :
      (((k8s jwt p now c urls).0 ≡ panic) ↔ PresentsFaulty jwt p.config now c.request.header)
      × (((xgql jwt p now c urls).0 ≡ panic) ↔ PresentsFaulty jwt p.config now c.request.header)
  unfolding k8s xgql
  handlers_panic_iff =
      let (by_k8s, by_xgql) = with-panic_iff _ in
      let config = get_impersonation_config-panic jwt p.config now c.request.header in
      let review = review_token-IsNil jwt p.config now c.request.header in
      (
        (λ h. review.0 (config.0 (by_k8s.0 h)), λ f. by_k8s.1 (config.1 (review.1 f))),
        (λ h. review.0 (config.0 (by_xgql.0 h)), λ f. by_xgql.1 (config.1 (review.1 f))),
      )
