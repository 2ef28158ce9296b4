-- ===== src/Agent/Handlers/Forwarding.antt =====
-- What `k8s` and `xgql` send on, for whom, and what they leave of the request.
use universal_crossplane.Base.{
  ℕ, String, ◌≡◌, ◌≢◌, refl, ap, inl, inr, false, not, ◌&&◌, none, some, [], ◌∷◌, ok, arith, ◌==◌,
  if◌then◌else◌, contains, Result-cases,
}
use universal_crossplane.Base.Dict.{lookup}
use universal_crossplane.Agent.Header.{get, allowed_headers}
use universal_crossplane.Agent.Header.Laws.{lookup-clone_allowed_headers}
use universal_crossplane.Agent.Token.{Jwt}
use universal_crossplane.Agent.Impersonation.{ImpersonationConfig, get_impersonation_config}
use universal_crossplane.Agent.Impersonation.Laws.{
  IsGranted, get_impersonation_config_sound, get_impersonation_config_complete,
}
use universal_crossplane.Agent.Http.{
  Url, Urls, write, Request, Context, RoundTripper, base, http_transport, bearer_auth,
  impersonating, ReverseProxy, proxied, Proxy,
}
use universal_crossplane.Agent.Handlers.{sanitize_request, version_tls12, error, Outcome, k8s, xgql}

proxied_inj :
    {CertPool Transport : Type 0} {rp rp' : ReverseProxy CertPool Transport} {r r' : Request}
    {u u' : Urls}
    → ◌≡◌ {A = Outcome CertPool Transport} (ok (proxied rp r), u) (ok (proxied rp' r'), u')
    → (rp ≡ rp') × (r ≡ r') × (u ≡ u')
proxied_inj h = ground arith

-- A proxy whose errors are handled by `p.error`.
abbrev pub proxy_to :
    {CertPool Transport : Type 0}
    → Url
    → RoundTripper CertPool Transport
    → ReverseProxy CertPool Transport
proxy_to target transport = record { target = target; transport = transport; error_handler = error }

module _ (jwt : Jwt) {CertPool Transport : Type 0} (p : Proxy jwt.PublicKey CertPool Transport)
    (now : ℕ) (c : Context) (urls : Urls) where
  -- The request was granted a configuration. It goes to `target` by the transport that `chain`
  -- makes of that, with the allowed headers only, and its URL, which the copy shares, is edited.
  pub record IsForwarded (chain : ImpersonationConfig → RoundTripper CertPool Transport)
      (target : Url) (edit : Url → Url) (rp : ReverseProxy CertPool Transport) (req : Request)
      (urls' : Urls) : Type 0 where
    pub ic : ImpersonationConfig
    pub granted : IsGranted jwt p.config now c.request.header ic
    pub transport : rp.transport ≡ chain ic
    pub sent_to : rp.target ≡ target
    pub header :
        (k : String)
        → lookup k req.header ≡ (
            if contains allowed_headers k && not (get k c.request.header == "")
            then some (get k c.request.header ∷ [])
            else none)
    pub shares_url : req.url ≡ c.request.url
    pub edited : urls' c.request.url ≡ edit (urls c.request.url)
    pub kept : (a : ℕ) → a ≢ c.request.url → urls' a ≡ urls a

  forwarded :
      (chain : ImpersonationConfig → RoundTripper CertPool Transport) (target : Url)
      (edit : Url → Url) (ic : ImpersonationConfig)
      → IsGranted jwt p.config now c.request.header ic
      → IsForwarded chain target edit
          (record { target = target; transport = chain ic; error_handler = error })
          (sanitize_request c.request)
          (write c.request.url (edit (urls c.request.url)) urls)
  unfolding sanitize_request
  forwarded chain target edit ic granted = record {
    ic = ic;
    granted = granted;
    transport = refl;
    sent_to = refl;
    header = lookup-clone_allowed_headers c.request.header;
    shares_url = refl;
    edited = ground arith;
    kept = λ a other. ground arith;
  }

  -- A request that `k8s` forwards was granted a configuration; it goes to the API server, by the
  -- agent's transport with that configuration impersonated; its headers are the first values of the
  -- allowed ones that are not empty; its path is the path parameter, which is also written to the
  -- URL of the incoming request, that the copy shares; no other URL changes.
  pub k8s-IsForwarded :
      (rp : ReverseProxy CertPool Transport) (req : Request) (urls' : Urls)
      → k8s jwt p now c urls ≡ (ok (proxied rp req), urls')
      → IsForwarded
          (λ ic. impersonating ic (base p.kube_transport))
          p.kube_host
          (λ u. record u { path = c.param "*" })
          rp
          req
          urls'
  unfolding k8s
  k8s-IsForwarded rp req urls' h =
      elim (Result-cases (get_impersonation_config jwt p.config now c.request.header)) [
        | inl (ic, e) ↦
            let (same_rp, same_req, same_urls) = proxied_inj (rw e at h) in
            rw (← same_rp, ← same_req, ← same_urls)
              (forwarded _ _ _ ic (get_impersonation_config_sound jwt p.config now _ ic e))
        | inr (inl (e, failed)) ↦ absurd (cc (ap (λ o. o.0) (rw failed at h)))
        | inr (inr panicked) ↦ absurd (cc (ap (λ o. o.0) (rw panicked at h)))
      ]

  -- The transport of `xgql`: the impersonation over the agent's own bearer token over TLS.
  abbrev pub xgql_chain : ImpersonationConfig → RoundTripper CertPool Transport
  xgql_chain ic = impersonating ic (
      bearer_auth p.k8s_bearer (
        http_transport (record {
          insecure_skip_verify = false;
          root_cas = p.config.xgql_ca_cert_pool;
          min_version = version_tls12;
        })))

  -- A request that `xgql` forwards was granted a configuration; it goes to xgql, impersonating that
  -- configuration over the agent's bearer token over TLS of at least version 1.2, whose
  -- certificates are verified by the configured pool; its headers are the first values of the
  -- allowed ones that are not empty; the host of its URL, which is that of the incoming request,
  -- becomes xgql's; no other URL changes.
  pub xgql-IsForwarded :
      (rp : ReverseProxy CertPool Transport) (req : Request) (urls' : Urls)
      → xgql jwt p now c urls ≡ (ok (proxied rp req), urls')
      → IsForwarded xgql_chain p.xgql_host (λ u. record u { host = p.xgql_host.host }) rp req urls'
  unfolding xgql
  xgql-IsForwarded rp req urls' h =
      elim (Result-cases (get_impersonation_config jwt p.config now c.request.header)) [
        | inl (ic, e) ↦
            let (same_rp, same_req, same_urls) = proxied_inj (rw e at h) in
            rw (← same_rp, ← same_req, ← same_urls)
              (forwarded _ _ _ ic (get_impersonation_config_sound jwt p.config now _ ic e))
        | inr (inl (e, failed)) ↦ absurd (cc (ap (λ o. o.0) (rw failed at h)))
        | inr (inr panicked) ↦ absurd (cc (ap (λ o. o.0) (rw panicked at h)))
      ]

  -- The outcome of a handler is a request that goes on.
  abbrev pub Forwards :
      Outcome CertPool Transport
      → (ImpersonationConfig → RoundTripper CertPool Transport)
      → Url
      → (Url → Url)
      → Type 0
  Forwards o chain target edit =
      (rp : ReverseProxy CertPool Transport) × (req : Request) × (urls' : Urls) × (o
        ≡ (ok (proxied rp req), urls'))
      × IsForwarded chain target edit rp req urls'

  -- Both handlers forward every request that is granted a configuration: `k8s` to the API server
  -- and `xgql` to xgql, each by its transport for a granted configuration, with the first values of
  -- the allowed headers that are not empty and no others, and with its own change of the shared
  -- URL.
  pub handlers_forward :
      (ic : ImpersonationConfig)
      → IsGranted jwt p.config now c.request.header ic
      → Forwards
          (k8s jwt p now c urls)
          (λ x. impersonating x (base p.kube_transport))
          p.kube_host
          (λ u. record u { path = c.param "*" })
        × Forwards
            (xgql jwt p now c urls)
            xgql_chain
            p.xgql_host
            (λ u. record u { host = p.xgql_host.host })
  unfolding k8s xgql
  handlers_forward ic g =
      let granted = get_impersonation_config_complete jwt p.config now _ ic g in
      (
        (_, _, _, rw granted refl, forwarded _ _ _ ic g),
        (_, _, _, rw granted refl, forwarded _ _ _ ic g),
      )
