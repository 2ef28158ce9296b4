-- ===== src/Examples/Running/Serving.antt =====
-- A request to the proxy of the run, and its shutdown.
use universal_crossplane.Base.{true, false, ℕ, String, ◌≡◌, refl, inl, some, [], ◌∷◌, Result, ok}
use universal_crossplane.Agent.Http.{
  Urls, write, Context, base, impersonating, ReverseProxy, proxied,
}
use universal_crossplane.Agent.Impersonation.{config_for}
use universal_crossplane.Agent.Token.Signature.{IsLawful}
use universal_crossplane.Agent.Handlers.{sanitize_request, k8s}
use universal_crossplane.Agent.Handlers.Forwarding.{proxy_to}
use universal_crossplane.Agent.Runtime.{Process, signalled}
use universal_crossplane.Agent.Lifecycle.{Exit, run, shutdown, new_server, store_ready}
use universal_crossplane.Agent.Startup.{setup_router, new_router}
use universal_crossplane.Agent.Lifecycle.Interleaving.{
  serving, draining, over, Steps, here, next, signal, acted, Acts,
}
use universal_crossplane.Agent.Lifecycle.Laws.{IsEnd, run-IsEnd}
use universal_crossplane.Agent.Lifecycle.Refinement.{shutdown_iff}
use universal_crossplane.Commands.UpboundAgent.Serving.{JwtOf, jwt_of, IsOwn, run-IsOwn}
use universal_crossplane.Examples.Api.{Net, at}
use universal_crossplane.Examples.Parser.{
  Standard, claims_at, known, rs256, parse_by, parse_by-valid, parse_by-early,
}
use universal_crossplane.Examples.Running.{runtime, time, env, cmd, built, connect_run}

-- The parser of the requests, whose tokens are for this control plane.
abbrev jwt : JwtOf String
jwt = record {
  StandardClaims = Standard;
  audience = λ c. "id";
  verify_issued_at = λ c now required. true;
  issued_at_error = 16;
  parse_with_claims = λ now s f. parse_by (f rs256) s;
}

abbrev lawful : IsLawful (jwt_of jwt)
lawful = record {
  header_of = λ s. rs256;
  Verifies = λ s m k. known s ≡ true;
  valid-verified = λ now s f h. parse_by-valid (f rs256) s h;
  issued_at-verified = λ now s f h only. parse_by-early (f rs256) s h only;
}

abbrev context : Context
context = record {
  request = record {
    header = ("Authorization", "Bearer good" ∷ []) ∷ [];
    url = 7;
    remote_addr = "r";
  };
  param = λ name. "/api";
}

abbrev urls : Urls
urls a = record { scheme = "https"; host = "agent"; path = "/k8s/api"; raw_query = "" }

abbrev kube_proxy : ReverseProxy String String
kube_proxy =
    proxy_to (built 1).proxy.kube_host
      (impersonating (config_for (claims_at 10).payload) (base "kube"))

abbrev kube_urls : Urls
kube_urls = write 7 (record (urls 7) { path = "/api" }) urls

abbrev listening_server : Process runtime
listening_server = record (built 1) {
  proxy = record (built 1).proxy { is_ready = some true };
  agent = some "id";
}

setup_run :
    setup_router runtime (store_ready runtime true (built 1))
    ≡ (ok (new_router false), listening_server)
unfolding setup_router
setup_run = refl

abbrev started : Process runtime
started = record listening_server { server = some (new_server runtime (new_router false) ":6443") }

k8s_run :
    k8s (jwt_of jwt) started.proxy 0 context urls
    ≡ (ok (proxied kube_proxy (sanitize_request context.request)), kube_urls)
unfolding k8s
k8s_run = refl

-- The signal is there, and the agent is to be drained.
abbrev stopping : Process runtime
stopping = store_ready runtime false started

abbrev at_time : ℕ → Net
at_time n = record (built 1).world { requests = n }

first_steps : Steps runtime serving started (draining 20000000001) stopping
first_steps = next (acted signal) here

run-IsEnd_example :
    (x : Exit (Result (Unit {0}) × Process runtime)) × (run runtime ":6443" "tls.crt" "tls.key"
        (built 1)
      ≡ some x)
    × IsEnd runtime started signalled x
run-IsEnd_example =
    run-IsEnd runtime time ":6443" "tls.crt" "tls.key" (built 1) listening_server (new_router false)
      signalled (built 1).world setup_run refl

run-IsOwn_example : IsOwn env jwt lawful cmd "token" started.proxy.config 0 context.request.header
run-IsOwn_example =
    run-IsOwn env jwt lawful cmd "token" ":6443" (at 0) (built 1).world (built 1) listening_server
      (new_router false) serving started 0 context urls kube_urls kube_proxy
      (sanitize_request context.request) connect_run setup_run here (inl k8s_run)

stopped_run : shutdown runtime started ≡ some (ok tt, record stopping { world = at_time 300000001 })
unfolding shutdown
stopped_run = refl

shutdown_iff_example :
    Acts runtime serving started (over (ok tt)) (record stopping { world = at_time 300000001 })
shutdown_iff_example =
    (shutdown_iff runtime time started (record stopping { world = at_time 300000001 }) (ok tt)).0
      stopped_run
