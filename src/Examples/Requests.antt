-- ===== src/Examples/Requests.antt =====
-- Requests to the handlers of internal/upboundagent/proxy.go, with a parser of three tokens.
mod Refused
use universal_crossplane.Base.{
  ◌↔◌, inl, String, ◌<>◌, ◌≡◌, refl, true, not, ◌&&◌, none, some, [], ◌∷◌, new, errorf, ok, eq_iff,
  arith, panic, ◌==◌, if◌then◌else◌, contains,
}
use universal_crossplane.Examples.Parser.{claims_at, jwt, lawful, config}
use universal_crossplane.Base.Text.{trim_space, split, equal_fold}
use universal_crossplane.Base.Dict.{lookup}
use universal_crossplane.Agent.Header.{Header, get, allowed_headers, clone_allowed_headers}
use universal_crossplane.Agent.Header.Laws.{lookup-clone_allowed_headers}
use universal_crossplane.Agent.Token.{bearer_token, key_func, review_token}
use universal_crossplane.Agent.Token.Laws.{IsAccepted, presented, missing_error, review_token_iff}
use universal_crossplane.Agent.Token.Signature.{IsVerified}
use universal_crossplane.Agent.Impersonation.{
  ImpersonationConfig, config_for, get_impersonation_config, err_invalid_env_id,
}
use universal_crossplane.Agent.Impersonation.Laws.{IsGranted, get_impersonation_config_iff}
use universal_crossplane.Agent.Http.{
  Url, Urls, write, Context, base, impersonating, ReverseProxy, http_error, proxied, Proxy,
}
use universal_crossplane.Agent.Handlers.{sanitize_request, status_bad_request, k8s, xgql}
use universal_crossplane.Agent.Handlers.Forwarding.{
  IsForwarded, k8s-IsForwarded, xgql_chain, xgql-IsForwarded, Forwards, handlers_forward, proxy_to,
}
use universal_crossplane.Agent.Handlers.Refusals.{k8s-IsVerified, xgql-IsVerified}
use universal_crossplane.Agent.Handlers.Panics.{PresentsFaulty, handlers_panic_iff}
use universal_crossplane.Agent.Handlers.Refused.{IsRefused, other_plane, handlers_refused_iff}

abbrev url : Url
url = record { scheme = "https"; host = "kube"; path = ""; raw_query = "" }

abbrev pub proxy : Proxy String Unit String
proxy = record {
  config = config;
  kube_host = url;
  kube_transport = "kube transport";
  nats_status = 1;
  xgql_host = record url { host = "xgql" };
  k8s_bearer = "b";
  is_ready = some true;
}

abbrev pub headers : String → Header
headers token =
    ("Authorization", ("Bearer " <> token) ∷ [])
    ∷ ("Accept", "a" ∷ "b" ∷ [])
    ∷ ("Cookie", "c" ∷ [])
    ∷ []

abbrev pub request : Header → Context
request h = record {
  request = record { header = h; url = 7; remote_addr = "r" };
  param = λ name. "/api";
}

abbrev pub context : Context
context = request (headers "good")

abbrev pub urls : Urls
urls a = record url { path = "/k8s/api"; raw_query = "q" }

abbrev granted : ImpersonationConfig
granted = config_for (claims_at 10).payload

abbrev kube_proxy : ReverseProxy Unit String
kube_proxy = proxy_to proxy.kube_host (impersonating granted (base proxy.kube_transport))

abbrev xgql_proxy : ReverseProxy Unit String
xgql_proxy = proxy_to proxy.xgql_host (xgql_chain jwt proxy 0 context urls granted)

abbrev kube_urls : Urls
kube_urls = write 7 (record (urls 7) { path = "/api" }) urls

abbrev xgql_urls : Urls
xgql_urls = write 7 (record (urls 7) { host = "xgql" }) urls

k8s_run :
    k8s jwt proxy 0 context urls
    ≡ (ok (proxied kube_proxy (sanitize_request context.request)), kube_urls)
unfolding k8s
k8s_run = refl

xgql_run :
    xgql jwt proxy 0 context urls
    ≡ (ok (proxied xgql_proxy (sanitize_request context.request)), xgql_urls)
unfolding xgql
xgql_run = refl

review_run : review_token jwt config 0 (headers "good") ≡ ok (some (claims_at 10))
unfolding review_token
review_run = refl

early_run : review_token jwt config 0 (headers "early") ≡ ok (some (claims_at 70))
unfolding review_token
early_run = refl

granted_run : get_impersonation_config jwt config 0 (headers "good") ≡ ok granted
unfolding get_impersonation_config
granted_run = refl

review_token_iff_example : IsAccepted jwt config 0 (headers "early") (claims_at 70)
review_token_iff_example =
    (review_token_iff jwt config 0 (headers "early") (claims_at 70)).0 early_run

get_impersonation_config_iff_example : IsGranted jwt config 0 (headers "good") granted
get_impersonation_config_iff_example =
    (get_impersonation_config_iff jwt config 0 (headers "good") granted).0 granted_run

k8s-IsVerified_example : IsVerified jwt config 0 lawful (headers "good")
k8s-IsVerified_example =
    k8s-IsVerified jwt proxy 0 context urls lawful kube_proxy (sanitize_request context.request)
      kube_urls k8s_run

xgql-IsVerified_example : IsVerified jwt config 0 lawful (headers "good")
xgql-IsVerified_example =
    xgql-IsVerified jwt proxy 0 context urls lawful xgql_proxy (sanitize_request context.request)
      xgql_urls xgql_run

k8s-IsForwarded_example :
    IsForwarded jwt proxy 0 context urls
      (λ ic. impersonating ic (base proxy.kube_transport))
      proxy.kube_host
      (λ u. record u { path = "/api" })
      kube_proxy
      (sanitize_request context.request)
      kube_urls
k8s-IsForwarded_example =
    k8s-IsForwarded jwt proxy 0 context urls kube_proxy (sanitize_request context.request) kube_urls
      k8s_run

xgql-IsForwarded_example :
    IsForwarded jwt proxy 0 context urls
      (xgql_chain jwt proxy 0 context urls)
      proxy.xgql_host
      (λ u. record u { host = "xgql" })
      xgql_proxy
      (sanitize_request context.request)
      xgql_urls
xgql-IsForwarded_example =
    xgql-IsForwarded jwt proxy 0 context urls xgql_proxy (sanitize_request context.request)
      xgql_urls xgql_run

handlers_forward_example :
    Forwards jwt proxy 0 context urls
      (k8s jwt proxy 0 context urls)
      (λ ic. impersonating ic (base proxy.kube_transport))
      proxy.kube_host
      (λ u. record u { path = "/api" })
    × Forwards jwt proxy 0 context urls
        (xgql jwt proxy 0 context urls)
        (xgql_chain jwt proxy 0 context urls)
        proxy.xgql_host
        (λ u. record u { host = "xgql" })
handlers_forward_example =
    handlers_forward jwt proxy 0 context urls granted
      ((get_impersonation_config_iff jwt config 0 (headers "good") granted).0 granted_run)

lookup-clone_allowed_headers_example : lookup "Accept" (clone_allowed_headers (headers "good")) ≡ (
    if contains allowed_headers "Accept" && not (get "Accept" (headers "good") == "")
    then some (get "Accept" (headers "good") ∷ [])
    else none)
lookup-clone_allowed_headers_example = lookup-clone_allowed_headers (headers "good") "Accept"
