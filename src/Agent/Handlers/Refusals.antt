-- ===== src/Agent/Handlers/Refusals.antt =====
-- Which requests `k8s` and `xgql` refuse, and the requests at which they panic.
use universal_crossplane.Base.{ℕ, String, ◌≡◌, refl, none, some, wrap, ok, panic}
use universal_crossplane.Agent.Token.{Jwt}
use universal_crossplane.Agent.Token.Laws.{
  review_token_complete, review_token-missing, review_token-panic_iff, presented, parse,
  missing_error,
}
use universal_crossplane.Agent.Token.Signature.{IsLawful, IsVerified, review_token-IsVerified}
use universal_crossplane.Agent.Impersonation.{
  get_impersonation_config, err_unable_to_validate_token,
}
use universal_crossplane.Agent.Http.{
  Urls, Request, Context, ReverseProxy, http_error, proxied, Proxy,
}
use universal_crossplane.Agent.Handlers.{status_bad_request, Outcome, k8s, xgql}
use universal_crossplane.Agent.Handlers.Forwarding.{k8s-IsForwarded, xgql-IsForwarded}

module _ (jwt : Jwt) {CertPool Transport : Type 0} (p : Proxy jwt.PublicKey CertPool Transport)
    (now : ℕ) (c : Context) (urls : Urls) where
  -- Where jwt-go is lawful (a token is valid, or wrong only in its time of issue, only if its key
  -- function gave a key with which its signature was verified by its method), whatever request the
  -- `k8s` handler forwards presents a bearer token whose method is RSA with RS256 and whose
  -- signature is verified by the configured public key.
  pub k8s-IsVerified :
      (L : IsLawful jwt) (rp : ReverseProxy CertPool Transport) (req : Request) (urls' : Urls)
      → k8s jwt p now c urls ≡ (ok (proxied rp req), urls')
      → IsVerified jwt p.config now L c.request.header
  k8s-IsVerified L rp req urls' h =
      let g = (k8s-IsForwarded jwt p now c urls rp req urls' h).granted in
      review_token-IsVerified jwt p.config now L _ g.claims
        (review_token_complete jwt p.config now _ _ g.accepted)

  -- Where jwt-go is lawful in the same sense, whatever request the `xgql` handler forwards presents
  -- a bearer token whose method is RSA with RS256 and whose signature is verified by the configured
  -- public key.
  pub xgql-IsVerified :
      (L : IsLawful jwt) (rp : ReverseProxy CertPool Transport) (req : Request) (urls' : Urls)
      → xgql jwt p now c urls ≡ (ok (proxied rp req), urls')
      → IsVerified jwt p.config now L c.request.header
  xgql-IsVerified L rp req urls' h =
      let g = (xgql-IsForwarded jwt p now c urls rp req urls' h).granted in
      review_token-IsVerified jwt p.config now L _ g.claims
        (review_token_complete jwt p.config now _ _ g.accepted)

  -- A request whose authorization header presents no bearer token is answered with status 400 by
  -- both handlers, with the error that says whether the header or the token is missing, and its URL
  -- stays.
  pub handlers_missing :
      presented c.request.header ≡ none
      → let e = wrap (missing_error c.request.header) err_unable_to_validate_token in
        let refused : Outcome CertPool Transport = (ok (http_error status_bad_request e), urls) in
        (k8s jwt p now c urls ≡ refused) × (xgql jwt p now c urls ≡ refused)
  unfolding k8s xgql get_impersonation_config
  handlers_missing absent =
      rw (review_token-missing jwt p.config now c.request.header absent) (refl, refl)

  -- A request that presents a bearer token for which the parser returns no token makes both
  -- handlers panic, and leaves the URLs.
  pub handlers_nil_token :
      (token : String)
      → presented c.request.header ≡ some token
      → (parse jwt p.config now token).token ≡ none
      → (k8s jwt p now c urls ≡ (panic, urls)) × (xgql jwt p now c urls ≡ (panic, urls))
  unfolding k8s xgql get_impersonation_config
  handlers_nil_token token given nil =
      rw ((review_token-panic_iff jwt p.config now c.request.header).1 (token, given, nil))
        (refl, refl)
