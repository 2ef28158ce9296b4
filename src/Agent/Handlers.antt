-- ===== src/Agent/Handlers.antt =====
-- The HTTP handlers of internal/upboundagent/proxy.go: `k8s`, `xgql`, `livez`, `readyz`, `error`.
pub mod Forwarding
pub mod Refusals
pub mod Panics
pub mod Refused
use universal_crossplane.Agent.Constants.{proxy_path_arg}
use universal_crossplane.Base.{
  ℕ, String, ◌<>◌, Bool, true, false, Option, none, some, Error, Result, ok, err, panic, eqb, ◌==◌,
  if◌then◌else◌,
}
use universal_crossplane.Agent.Header.{Header, clone_allowed_headers}
use universal_crossplane.Agent.Config.{Config}
use universal_crossplane.Agent.Token.{Jwt}
use universal_crossplane.Agent.Http.{
  Url, Urls, write, Request, Context, Response, RoundTripper, base, http_transport, bearer_auth,
  impersonating, ReverseProxy, Served, http_error, proxied, Proxy,
}
use universal_crossplane.Agent.Impersonation.{ImpersonationConfig, get_impersonation_config}

abbrev pub status_ok : ℕ
status_ok = 200

abbrev pub status_bad_request : ℕ
status_bad_request = 400

abbrev pub status_internal_server_error : ℕ
status_internal_server_error = 500

abbrev pub status_service_unavailable : ℕ
status_service_unavailable = 503

-- `tls.VersionTLS12`
abbrev pub version_tls12 : ℕ
version_tls12 = 0x0303

-- `p.error`; `http.Error` ends the text with a line break.
unfoldable pub error : Request → Error → Response
error r e = record { status = status_internal_server_error; body = "\n" }

unfoldable pub parse_destination_path : Context → String
parse_destination_path c = c.param proxy_path_arg

unfoldable pub sanitize_request : Request → Request
unfolding clone_allowed_headers
sanitize_request req = record req { header = clone_allowed_headers req.header }

-- The JSON body of a health check: `status`, and `nats-status` where it is given.
pub record Health : Type 0 where
  pub code : ℕ
  pub status : ℕ
  pub nats_status : Option ℕ

ready_health : Option Bool → Result Health
ready_health none = panic
ready_health (some true) = ok (record { code = status_ok; status = status_ok; nats_status = none })
ready_health (some false) = ok (record {
  code = status_service_unavailable;
  status = status_service_unavailable;
  nats_status = none;
})

module _ {PublicKey CertPool Transport : Type 0} where
  -- `connected` is `nats.CONNECTED`.
  unfoldable pub livez : ℕ → Proxy PublicKey CertPool Transport → Health
  livez connected p =
      let code = if eqb p.nats_status connected then status_ok else status_service_unavailable in
      record { code = code; status = code; nats_status = some p.nats_status }

  -- An atomic value that was never stored is nil, and the type assertion panics.
  unfoldable pub readyz : Proxy PublicKey CertPool Transport → Result Health
  unfolding ready_health
  readyz p = ready_health p.is_ready

-- What a handler returns, and the URLs afterwards.
abbrev pub Outcome : Type 0 → Type 0 → Type 0
Outcome CertPool Transport = Result (Served CertPool Transport) × Urls

module _ (jwt : Jwt) {CertPool Transport : Type 0} where
  open jwt use {PublicKey}

  -- What `k8s` does once it has an impersonation config, or has failed to get one.
  unfoldable pub k8s_with :
      Proxy PublicKey CertPool Transport
      → Context
      → Urls
      → Result ImpersonationConfig
      → Outcome CertPool Transport
  unfolding sanitize_request parse_destination_path
  k8s_with p c urls panic = (panic, urls)
  k8s_with p c urls (err e) = (ok (http_error status_bad_request e), urls)
  k8s_with p c urls (ok ic) =
      let rp : ReverseProxy CertPool Transport = record {
        target = p.kube_host;
        transport = impersonating ic (base p.kube_transport);
        error_handler = error;
      } in
      let copy = sanitize_request c.request in
      let url : Url = record (urls copy.url) { path = parse_destination_path c } in
      (ok (proxied rp copy), write copy.url url urls)

  unfoldable pub k8s :
      Proxy PublicKey CertPool Transport → ℕ → Context → Urls → Outcome CertPool Transport
  unfolding k8s_with get_impersonation_config
  k8s p now c urls = k8s_with p c urls (get_impersonation_config jwt p.config now c.request.header)

  unfoldable pub xgql_with :
      Proxy PublicKey CertPool Transport
      → Context
      → Urls
      → Result ImpersonationConfig
      → Outcome CertPool Transport
  unfolding sanitize_request
  xgql_with p c urls panic = (panic, urls)
  xgql_with p c urls (err e) = (ok (http_error status_bad_request e), urls)
  xgql_with p c urls (ok ic) =
      let tr : RoundTripper CertPool Transport = http_transport (record {
        insecure_skip_verify = false;
        root_cas = p.config.xgql_ca_cert_pool;
        min_version = version_tls12;
      }) in
      let rp : ReverseProxy CertPool Transport = record {
        target = p.xgql_host;
        transport = impersonating ic (bearer_auth p.k8s_bearer tr);
        error_handler = error;
      } in
      let copy = sanitize_request c.request in
      let url : Url = record (urls copy.url) { host = p.xgql_host.host } in
      (ok (proxied rp copy), write copy.url url urls)

  unfoldable pub xgql :
      Proxy PublicKey CertPool Transport → ℕ → Context → Urls → Outcome CertPool Transport
  unfolding xgql_with get_impersonation_config
  xgql p now c urls =
      xgql_with p c urls (get_impersonation_config jwt p.config now c.request.header)
