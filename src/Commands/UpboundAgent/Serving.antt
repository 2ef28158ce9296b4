-- ===== src/Commands/UpboundAgent/Serving.antt =====
-- Which requests the proxy that `main` starts sends on: those of users of its own control plane.
use mathlib.Core.Option.{some-injective}
use universal_crossplane.Base.{
  ℕ, true, Bool, String, ◌≡◌, ◌⊎◌, inl, inr, sym, ap, ◌∙◌, some, Result, ok,
}
use universal_crossplane.Base.Effects.{◌>>=◌}
use universal_crossplane.Jwt.{TokenHeader, Parsed, rsa}
use universal_crossplane.Clients.Upbound.{PublicCerts, new_resty, get_gateway_certs}
use universal_crossplane.Agent.Header.{Header}
use universal_crossplane.Agent.Config.{Config, TokenClaims}
use universal_crossplane.Agent.Token.{Jwt, key_func}
use universal_crossplane.Agent.Token.Laws.{presented}
use universal_crossplane.Agent.Token.Signature.{IsLawful, IsVerified}
use universal_crossplane.Agent.Impersonation.{ImpersonationConfig}
use universal_crossplane.Agent.Impersonation.Laws.{IsGranted}
use universal_crossplane.Agent.Http.{Urls, Request, Context, ReverseProxy, proxied, Proxy}
use universal_crossplane.Agent.Handlers.{k8s, xgql}
use universal_crossplane.Agent.Handlers.Forwarding.{k8s-IsForwarded, xgql-IsForwarded}
use universal_crossplane.Agent.Handlers.Refusals.{k8s-IsVerified, xgql-IsVerified}
use universal_crossplane.Agent.Runtime.{Runtime, Process, Router}
use universal_crossplane.Agent.Startup.{setup_router}
use universal_crossplane.Agent.Startup.Laws.{setup_router-IsListening}
use universal_crossplane.Agent.Lifecycle.{store_ready, new_server}
use universal_crossplane.Agent.Lifecycle.Interleaving.{Phase, serving, Steps, Steps-ready}
use universal_crossplane.Commands.UpboundAgent.Env.{AgentCmd, AgentEnv}
use universal_crossplane.Commands.UpboundAgent.{read_cpid_from_token, configure, connect}
use universal_crossplane.Commands.UpboundAgent.Laws.{IsConfigured}
use universal_crossplane.Commands.UpboundAgent.Connection.{connect-IsConnected}

-- jwt-go, with the public keys of the runtime.
pub record JwtOf (PublicKey : Type 0) : Type 1 where
  pub StandardClaims : Type 0
  pub audience : StandardClaims → String
  pub verify_issued_at : StandardClaims → ℕ → Bool → Bool
  pub issued_at_error : ℕ
  pub parse_with_claims :
      ℕ → String → (TokenHeader → Result PublicKey) → Parsed (TokenClaims StandardClaims)

abbrev pub jwt_of : {PublicKey : Type 0} → JwtOf PublicKey → Jwt
jwt_of {PublicKey = PublicKey} J = record {
  PublicKey = PublicKey;
  StandardClaims = J.StandardClaims;
  audience = J.audience;
  verify_issued_at = J.verify_issued_at;
  issued_at_error = J.issued_at_error;
  parse_with_claims = J.parse_with_claims;
}

module _ {R : Runtime} (A : AgentEnv R) (J : JwtOf R.PublicKey) (L : IsLawful (jwt_of J)) where
  open R use {nats, PublicKey, CertPool, Transport}

  -- The request presents a token whose claims, as the parser reads them from it, are for the
  -- control plane of the agent's own token, and which is signed by RS256 under the configured key,
  -- which the Upbound API gave for that token.
  pub record IsOwn (a : AgentCmd) (own : String) (config : Config PublicKey CertPool) (now : ℕ)
      (headers : Header) : Type 0 where
    pub token : String
    pub certs : PublicCerts
    pub pem : String
    pub before : nats.World
    pub after : nats.World
    pub given : presented headers ≡ some token
    pub audience_is :
        read_cpid_from_token A own
        ≡ ok (
            J.audience
              (J.parse_with_claims now token (key_func (jwt_of J) config)).claims.standard_claims)
    pub fetched :
        get_gateway_certs A.resty (new_resty a.upbound_api_endpoint a.debug) own before
        ≡ (ok certs, after)
    pub decoded : nats.base64_decode certs.jwt_public_key ≡ ok pem
    pub parsed : A.parse_rsa_public_key_from_pem pem ≡ ok config.token_rsa_public_key
    pub verifies : L.Verifies token (rsa "RS256") config.token_rsa_public_key

  granted-IsOwn :
      (a : AgentCmd) (own : String) (config : Config PublicKey CertPool) (now : ℕ)
      (headers : Header) {ic : ImpersonationConfig}
      → IsConfigured A a own config
      → IsGranted (jwt_of J) config now headers ic
      → IsVerified (jwt_of J) config now L headers
      → IsOwn a own config now headers
  granted-IsOwn a own config now headers c g v =
      let t = g.accepted in
      let same : v.token ≡ t.token = some-injective _ _ (sym v.given ∙ t.given) in
      let for_us = ap (λ x. J.audience x.standard_claims) t.claims ∙ g.for_us in
      record {
        token = t.token;
        certs = c.certs;
        pem = c.pem;
        before = c.before;
        after = c.after;
        given = t.given;
        audience_is = c.id ∙ ap ok (sym for_us);
        fetched = c.fetched;
        decoded = c.decoded;
        parsed = c.key;
        verifies = rw same at v.verifies;
      }

  -- A proxy with the configuration of the one that was built forwards this request only if it is
  -- the agent's own.
  module _ (a : AgentCmd) (own : String) (q : Proxy PublicKey CertPool Transport) (now : ℕ)
      (c : Context) (urls urls' : Urls) (rp : ReverseProxy CertPool Transport) (req : Request) where
    -- One of the handlers sends the request on.
    abbrev pub IsSentOn : Type 0
    IsSentOn =
        (k8s (jwt_of J) q now c urls ≡ (ok (proxied rp req), urls'))
        ⊎ (xgql (jwt_of J) q now c urls ≡ (ok (proxied rp req), urls'))

    sent_on-IsOwn :
        IsConfigured A a own q.config → IsSentOn → IsOwn a own q.config now c.request.header
    sent_on-IsOwn configured (inl sent) =
        granted-IsOwn a own q.config now c.request.header configured
          (k8s-IsForwarded (jwt_of J) q now c urls rp req urls' sent).granted
          (k8s-IsVerified (jwt_of J) q now c urls L rp req urls' sent)
    sent_on-IsOwn configured (inr sent) =
        granted-IsOwn a own q.config now c.request.header configured
          (xgql-IsForwarded (jwt_of J) q now c urls rp req urls' sent).granted
          (xgql-IsVerified (jwt_of J) q now c urls L rp req urls' sent)

  -- Let the configuration and the connection of `main` build a proxy from the agent's own token,
  -- let `setupRouter` succeed for it, and let its run reach any phase by steps between which
  -- requests are served. Where jwt-go is lawful, whatever request a handler of that proxy then
  -- sends on presents a bearer token whose claims, as the parser reads them from that token, have
  -- the control plane id that was read from the agent's own token as their audience, and whose
  -- signature is verified by RS256 under the public key that the Upbound API gave for the agent's
  -- own token.
  pub run-IsOwn :
      (a : AgentCmd) (own addr : String) (w w' : nats.World) (p p1 : Process R) (e : Router)
      (s : Phase) (q : Process R) (now : ℕ) (c : Context) (urls urls' : Urls)
      (rp : ReverseProxy CertPool Transport) (req : Request)
      → (configure A a own >>= connect A a) w ≡ (ok p, w')
      → setup_router R (store_ready R true p) ≡ (ok e, p1)
      → Steps R serving (record p1 { server = some (new_server R e addr) }) s q
      → IsSentOn a own q.proxy now c urls urls' rp req
      → IsOwn a own q.proxy.config now c.request.header
  run-IsOwn a own addr w w' p p1 e s q now c urls urls' rp req built routed steps sent =
      let same = (setup_router-IsListening R (store_ready R true p) p1 e routed).proxy in
      let ready : p1.proxy.is_ready ≡ some true = ap (λ x. x.is_ready) same in
      let kept = (Steps-ready R steps ready).1 ∙ ap (λ x. x.config) same in
      sent_on-IsOwn a own q.proxy now c urls urls' rp req
        (rw kept (connect-IsConnected A a own w w' p built).configured) sent
