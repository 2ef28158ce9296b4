-- ===== src/Examples/Requests/Refused.antt =====
-- Requests that the handlers of internal/upboundagent/proxy.go refuse, and one at which they panic.
use universal_crossplane.Base.{
  ◌↔◌, inl, String, ◌≡◌, refl, none, some, [], ◌∷◌, errorf, new, wrap, ok, eq_iff, panic,
}
use universal_crossplane.Examples.Parser.{claims_at, jwt, config}
use universal_crossplane.Base.Text.{trim_space, split, equal_fold}
use universal_crossplane.Agent.Header.{get}
use universal_crossplane.Agent.Token.{bearer_token, key_func, review_token}
use universal_crossplane.Agent.Token.Laws.{presented, review_token_iff}
use universal_crossplane.Agent.Impersonation.{err_invalid_env_id, err_unable_to_validate_token}
use universal_crossplane.Agent.Http.{http_error, Proxy}
use universal_crossplane.Agent.Handlers.{status_bad_request, k8s, xgql}
use universal_crossplane.Agent.Handlers.Panics.{PresentsFaulty, handlers_panic_iff}
use universal_crossplane.Agent.Handlers.Refused.{
  IsRefused, missing, other_plane, handlers_refused_iff,
}
use universal_crossplane.Examples.Requests.{proxy, headers, request, context, urls}

-- The same proxy for another control plane.
abbrev elsewhere : Proxy String Unit String
elsewhere = record proxy { config = record config { control_plane_id = "other" } }

elsewhere_run : review_token jwt elsewhere.config 0 (headers "good") ≡ ok (some (claims_at 10))
unfolding review_token
elsewhere_run = refl

refused_run :
    IsRefused jwt elsewhere.config 0
      (headers "good")
      (errorf err_invalid_env_id ("cp" ∷ "other" ∷ []))
refused_run =
    other_plane (claims_at 10)
      ((review_token_iff jwt elsewhere.config 0 (headers "good") (claims_at 10)).0 elsewhere_run)
      (λ h. absurd (cc ((eq_iff "cp" "other").1 h))) refl

handlers_refused_iff_example :
    k8s jwt elsewhere 0 context urls
    ≡ (ok (http_error status_bad_request (errorf err_invalid_env_id ("cp" ∷ "other" ∷ []))), urls)
handlers_refused_iff_example =
    (handlers_refused_iff jwt elsewhere 0 context urls
        (errorf err_invalid_env_id ("cp" ∷ "other" ∷ []))).0.1
      refused_run

presented_run : presented (headers "bad") ≡ some "bad"
unfolding get trim_space split bearer_token equal_fold
presented_run = refl

absent_run : presented [] ≡ none
unfolding get trim_space split bearer_token equal_fold
absent_run = refl

missing_refused :
    IsRefused jwt config 0 []
      (wrap (new "missing authorization header") err_unable_to_validate_token)
unfolding get trim_space
missing_refused = missing absent_run refl

bad_run : PresentsFaulty jwt config 0 (headers "bad")
unfolding key_func
bad_run = ("bad", presented_run, inl refl)

handlers_panic_iff_example :
    (((k8s jwt proxy 0 (request (headers "bad")) urls).0 ≡ panic)
      ↔ PresentsFaulty jwt config 0 (headers "bad"))
    × (((xgql jwt proxy 0 (request (headers "bad")) urls).0 ≡ panic)
        ↔ PresentsFaulty jwt config 0 (headers "bad"))
handlers_panic_iff_example = handlers_panic_iff jwt proxy 0 (request (headers "bad")) urls
