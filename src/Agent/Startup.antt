-- ===== src/Agent/Startup.antt =====
-- `NewProxy`, `setupRouter` and their helpers in internal/upboundagent/proxy.go.
pub mod Laws
use universal_crossplane.Agent.Constants.{
  service_xgql, k8s_handler_path, liveness_handler_path, readyness_handler_path, xgql_handler_path,
}
use universal_crossplane.Base.{
  ℕ, ◌*◌, String, ◌<>◌, Bool, true, false, Option, none, some, List, [], ◌∷◌, ◌++◌, Result, ok, err,
  wrap, panic, if◌then◌else◌,
}
use universal_crossplane.Base.Effects.{Eff, ◌>>=◌, ◌>>◌, pure, lift, gets, modify, or_wrap}
use universal_crossplane.Clients.Upbound.{Client}
use universal_crossplane.Agent.Config.{Config}
use universal_crossplane.Agent.Token.{second}
use universal_crossplane.Agent.Http.{Proxy}
use universal_crossplane.Agent.Nats.{NatsConnManager, new_nats_conn_manager}
use universal_crossplane.Agent.Runtime.{
  Middleware, request_logger, recover, prometheus, jaeger, Handler, k8s_handler, xgql_handler,
  readyz_handler, livez_handler, Router, NatsOption, name, user_jwt, root_cas, Runtime, Process,
}

abbrev pub keep_alive_interval : ℕ
keep_alive_interval = 5 * second

abbrev pub routes : List (String × Handler)
routes =
    (k8s_handler_path, k8s_handler)
    ∷ (xgql_handler_path, xgql_handler)
    ∷ (readyness_handler_path, readyz_handler)
    ∷ (liveness_handler_path, livez_handler)
    ∷ []

-- The router before its agent listens.
unfoldable pub new_router : Bool → Router
new_router debug = record {
  middleware = (if debug then request_logger ∷ [] else []) ++ (recover ∷ prometheus ∷ jaeger ∷ []);
  routes = routes;
}

module _ (R : Runtime) where
  open R use {nats, PublicKey, CertPool, Transport, RestConfig, Uuid}

  unfoldable pub get_subject_for_agent : Uuid → String
  get_subject_for_agent agent_id = "platforms." <> R.uuid_string agent_id <> ".gateway"

  unfoldable pub round_tripper_for_rest_config : RestConfig → Eff nats.World Transport
  round_tripper_for_rest_config config = do
    tls_conf ← lift (R.tls_config_for config)
    rest_transport_config ← lift (R.transport_config config)
    lift (R.http_wrappers_for_config rest_transport_config tls_conf)

  -- The token and the signatures are asked of the manager.
  abbrev pub setup_auth_option : NatsConnManager nats → NatsOption nats
  setup_auth_option m = user_jwt m

  abbrev pub setup_tls_option : NatsConnManager nats → NatsOption nats
  setup_tls_option m = root_cas m.ca_file

  -- The options of nats-proxy, and then these two.
  abbrev pub conn_options :
      Config PublicKey CertPool → NatsConnManager nats → List (NatsOption nats)
  conn_options config m =
      R.setup_conn_options (name (config.control_plane_id <> "-" <> config.nats.name) ∷ [])
      ++ (setup_auth_option m ∷ setup_tls_option m ∷ [])

  -- The connection beside the proxy that holds it.
  unfoldable pub new_proxy :
      Config PublicKey CertPool
      → RestConfig
      → Client nats.World
      → String
      → nats.World
      → Result (Process R) × nats.World
  unfolding round_tripper_for_rest_config new_nats_conn_manager
  new_proxy config rest_config up_client cluster_id = do
    krt ←
        or_wrap "failed to build round tripper for rest config"
          (round_tripper_for_rest_config rest_config)
    kube_host ← or_wrap "failed to parse kube url" (lift (R.parse_url (R.host rest_config)))
    xgql_host ← or_wrap "failed to parse xgql url" (lift (R.parse_url ("https://" <> service_xgql)))
    m ← or_wrap "failed to create new nats connection manager" (
        new_nats_conn_manager nats up_client cluster_id config.nats.control_plane_token
          config.nats.ca_bundle)
    nc ← or_wrap "failed to connect NATS" (R.connect config.nats.endpoint (conn_options config m))
    w ← gets (λ w. w)
    pure (record {
      proxy = record {
        config = config;
        kube_host = kube_host;
        kube_transport = krt;
        nats_status = R.status nc w;
        xgql_host = xgql_host;
        k8s_bearer = R.bearer_token rest_config;
        is_ready = none;
      };
      nc = nc;
      agent = none;
      server = none;
      world = w;
    })

  -- A call that changes the world only.
  abbrev pub on_world : {A : Type 0} → Eff nats.World A → Eff (Process R) A
  on_world m p = let (x, w) = m p.world in (x, record p { world = w })

  unfoldable pub setup_router : Eff (Process R) Router
  unfolding new_router get_subject_for_agent
  setup_router = do
    p ← gets (λ p. p)
    let e = new_router p.proxy.config.debug_mode
    agent_id ←
        or_wrap "failed to parse control plane id as uid"
          (lift (R.parse_uuid p.proxy.config.control_plane_id))
    or_wrap "failed to listen to nats"
        (on_world (R.listen p.nc agent_id e (get_subject_for_agent agent_id) keep_alive_interval))
    modify λ p. record p { agent = some agent_id }
    pure e
