-- ===== src/Examples/Running.antt =====
-- A run of the agent from its token to its shutdown; the requests of the world are also its clock.
mod Serving
use universal_crossplane.Base.{
  ℕ, ◌+◌, String, ◌≡◌, refl, true, false, none, some, [], ◌∷◌, new, Result, ok, eqb, ltb,
  if◌then◌else◌, inl, inr, arith,
}
use universal_crossplane.Base.Dict.{lookup, insert}
use universal_crossplane.Base.Effects.{◌>>=◌}
use universal_crossplane.Jwt.{str, validation}
use universal_crossplane.Clients.Upbound.{new_client}
use universal_crossplane.Agent.Http.{Url}
use universal_crossplane.Agent.Config.{Config}
use universal_crossplane.Agent.Runtime.{Runtime, Process, signalled}
use universal_crossplane.Agent.Startup.{new_proxy, setup_router, new_router}
use universal_crossplane.Agent.Startup.Laws.{
  IsListening, setup_router-IsListening, IsBuilt, new_proxy-IsBuilt,
}
use universal_crossplane.Agent.Lifecycle.{Exit, returned, run}
use universal_crossplane.Agent.Lifecycle.Drain.{Ends as DrainEnds, draining-Drains}
use universal_crossplane.Agent.Lifecycle.Laws.{IsTime, Ends, shutdown-IsShutdown}
use universal_crossplane.Commands.UpboundAgent.Env.{AgentCmd, AgentEnv}
use universal_crossplane.Commands.UpboundAgent.{
  wait_for_control_plane_token, read_cpid_from_token, configure, connect, main,
  control_plane_token_check_period,
}
use universal_crossplane.Commands.UpboundAgent.Waiting.{Waits, wait_iff}
use universal_crossplane.Commands.UpboundAgent.Laws.{IsParsed, IsSubject, read_cpid_from_token_iff}
use universal_crossplane.Commands.UpboundAgent.Arrival.{IsMounted, KeepsTime, wait-ends_within}
use universal_crossplane.Commands.UpboundAgent.Connection.{IsConnected, connect-IsConnected}
use universal_crossplane.Commands.UpboundAgent.Ending.{IsServed, main-IsServed}
use universal_crossplane.Examples.Api.{Net, at, resty, nats}

abbrev url_of : String → Url
url_of s = record { scheme = "https"; host = s; path = ""; raw_query = "" }

-- The agent has drained at the time 300000000.
abbrev runtime : Runtime
runtime = record {
  nats = nats;
  PublicKey = String;
  CertPool = String;
  Transport = String;
  RestConfig = String;
  TlsConf = String;
  TransportConf = String;
  Conn = String;
  Uuid = String;
  host = λ c. c;
  bearer_token = λ c. "bearer";
  tls_config_for = ok;
  transport_config = ok;
  http_wrappers_for_config = λ t c. ok t;
  parse_url = λ s. ok (url_of s);
  setup_conn_options = λ o. o;
  connect = λ e o w. (ok "conn", w);
  status = λ c w. 1;
  parse_uuid = ok;
  uuid_string = λ u. u;
  listen = λ c u r s k w. (ok tt, w);
  drain = λ a w. (ok tt, w);
  is_draining = λ w. ltb w.requests 300000000;
  wait = λ s c k w. (signalled, w);
  shutdown_server = λ s d w. (ok tt, w);
  now = λ w. w.requests;
  sleep = λ d w. record w { requests = w.requests + d };
}

time : IsTime runtime
time = record { clock = λ d w. omega arith; drain-now = λ a w. omega arith }

-- The token's file is there from the first sleep on.
abbrev env : AgentEnv runtime
env = record {
  Float = ℕ;
  Kube = String;
  resty = resty;
  read_file = λ p w. (if eqb w.requests 0 then inl (new "not exist") else inr "token", w);
  clean = λ p. p;
  is_not_exist = λ e. true;
  jwt_parse = λ t. record {
    token = some false;
    claims = ("sub", str "controlPlane|id") ∷ [];
    error = some (validation 2 (new "no Keyfunc was provided."));
  };
  malformed = 1;
  parse_rsa_public_key_from_pem = ok;
  append_certs_from_pem = some;
  get_config = λ w. (ok "kube", w);
  new_kube = ok;
  get_namespace_uid = λ k n w. (ok "uid", w);
}

abbrev cmd : AgentCmd
cmd = record {
  debug = false;
  pod_name = "pod";
  server_port = "6443";
  tls_cert_file = "tls.crt";
  tls_key_file = "tls.key";
  xgql_ca_bundle_file = "";
  nats_endpoint = "nats://nats";
  upbound_api_endpoint = "https://api";
  control_plane_token_path = "/token";
}

abbrev config : Config String String
config = record {
  debug_mode = false;
  control_plane_id = "id";
  token_rsa_public_key = "pem";
  xgql_ca_cert_pool = none;
  nats = record {
    name = "pod";
    endpoint = "nats://nats";
    jwt_endpoint = "https://api";
    control_plane_token = "token";
    ca_bundle = "ca";
  };
}

abbrev built : ℕ → Process runtime
built n = record {
  proxy = record {
    config = config;
    kube_host = url_of "kube";
    kube_transport = "kube";
    nats_status = 1;
    xgql_host = url_of "https://xgql";
    k8s_bearer = "bearer";
    is_ready = none;
  };
  nc = "conn";
  agent = none;
  server = none;
  world = record { requests = n; files = ("nats-ca1", "ca") ∷ [] };
}

listening : Process runtime
listening = record (built 0) { agent = some "id" }

built_run :
    new_proxy runtime config "kube" (new_client resty "https://api" false) "uid" (at 0)
    ≡ (ok (built 0), (built 0).world)
unfolding new_proxy insert
built_run = refl

setup_run : setup_router runtime (built 0) ≡ (ok (new_router false), listening)
unfolding setup_router listening
setup_run = refl

connect_run :
    (configure env cmd "token" >>= connect env cmd) (at 0) ≡ (ok (built 1), (built 1).world)
unfolding configure connect new_proxy insert lookup
connect_run = refl

id_run : read_cpid_from_token env "token" ≡ ok "id"
unfolding read_cpid_from_token
id_run = refl

wait_run :
    wait_for_control_plane_token env 2 "/token" control_plane_token_check_period (at 0)
    ≡ some (ok "token", at 3000000000)
unfolding wait_for_control_plane_token
wait_run = refl

shutdown-IsShutdown_example : Ends runtime listening
shutdown-IsShutdown_example = shutdown-IsShutdown runtime time listening

wait_iff_example :
    Waits env "/token" control_plane_token_check_period (at 0) (ok "token") (at 3000000000)
wait_iff_example =
    (wait_iff env "/token" control_plane_token_check_period (at 0) (at 3000000000) (ok "token")).0
      (2, wait_run)

mounted : IsMounted env "/token" 1
mounted w late =
    let there : eqb w.requests 0 ≡ false = ground arith in ("token", rw there refl, λ h. cc)

keeps : KeepsTime env
keeps path w = omega arith

wait-ends_within_example :
    (x : Result String) × (w : Net) × (wait_for_control_plane_token env 2 "/token" 3000000000 (at 0)
      ≡ some (x, w))
    × Waits env "/token" 3000000000 (at 0) x w
wait-ends_within_example =
    wait-ends_within env (λ d w. omega arith) keeps "/token" 1 mounted 3000000000 1 (at 0)
      (omega arith)

main_run : main env 2 cmd (at 0) ≡ some (ok (returned (built 3000000001).world))
unfolding main configure connect new_proxy insert lookup run
main_run = refl

main-IsServed_example : IsServed env cmd (at 0) (returned (built 3000000001).world)
main-IsServed_example = main-IsServed env cmd 2 (at 0) (returned (built 3000000001).world) main_run

read_cpid_from_token_iff_example :
    IsParsed env (some false) (some (validation 2 (new "no Keyfunc was provided.")))
    × IsSubject env (some (str "controlPlane|id")) "id"
unfolding lookup
read_cpid_from_token_iff_example = (read_cpid_from_token_iff env "token" "id").0 id_run

connect-IsConnected_example : IsConnected env cmd "token" (built 1) (built 1).world
connect-IsConnected_example =
    connect-IsConnected env cmd "token" (at 0) (built 1).world (built 1) connect_run
