-- ===== src/Agent/Startup/Laws.antt =====
-- What a proxy that was built, or whose router was set up, holds and listens to.
use universal_crossplane.Base.{String, ◌≡◌, sym, ap, ◌∙◌, none, some, Result, ok, ok-injective}
use universal_crossplane.Base.Effects.{or_wrap->>=-eq-ok, or_wrap-lift->>=-eq-ok}
use universal_crossplane.Clients.Upbound.{Client}
use universal_crossplane.Agent.Config.{Config}
use universal_crossplane.Agent.Nats.{NatsConnManager, new_nats_conn_manager}
use universal_crossplane.Agent.Runtime.{Router, Runtime, Process}
use universal_crossplane.Agent.Startup.{
  new_router, get_subject_for_agent, round_tripper_for_rest_config, conn_options, new_proxy,
  on_world, setup_router, keep_alive_interval,
}

module _ (R : Runtime) where
  open R use {nats, PublicKey, CertPool, Transport, RestConfig, Uuid, Conn}

  -- The router is the agent's, which listens on the subject of the control plane's id.
  pub record IsListening (p : Process R) (e : Router) (p' : Process R) : Type 0 where
    pub agent_id : Uuid
    pub parsed : R.parse_uuid p.proxy.config.control_plane_id ≡ ok agent_id
    pub router : e ≡ new_router p.proxy.config.debug_mode
    pub agent : p'.agent ≡ some agent_id
    pub listened :
        R.listen p.nc agent_id e (get_subject_for_agent R agent_id) keep_alive_interval p.world
        ≡ (ok tt, p'.world)
    pub proxy : p'.proxy ≡ p.proxy

  on_world-eq_ok :
      {A : Type 0} (m : nats.World → Result A × nats.World) (p : Process R) {a : A} {p' : Process R}
      → on_world R m p ≡ (ok a, p')
      → (m p.world ≡ (ok a, p'.world)) × (p'.proxy ≡ p.proxy)
  on_world-eq_ok m p h = ((λ i. ((h i).0, (h i).1.world)), sym (ap (λ o. o.1.proxy) h))

  -- A router that `setupRouter` returns has the four routes and is that of the agent, which listens
  -- on the subject of the control plane's id, a UUID, with the interval of 5 seconds; the proxy
  -- itself is left as it was.
  pub setup_router-IsListening :
      (p p' : Process R) (e : Router) → setup_router R p ≡ (ok e, p') → IsListening p e p'
  unfolding setup_router
  setup_router-IsListening p p' e h =
      let router = new_router p.proxy.config.debug_mode in
      let (id, parsed, rest) =
        or_wrap-lift->>=-eq-ok _ (R.parse_uuid p.proxy.config.control_plane_id) _ p h in
      let listen = R.listen p.nc id router (get_subject_for_agent R id) keep_alive_interval in
      let (_, q, listened, done) = or_wrap->>=-eq-ok _ (on_world R listen) _ p rest in
      let (world, proxy) = on_world-eq_ok listen p listened in
      let same = ap (λ o. o.1) done in
      let is = ok-injective (ap (λ o. o.0) done) in
      record {
        agent_id = id;
        parsed = parsed;
        router = sym is;
        agent = sym (ap (λ r. r.agent) same);
        listened = rw (← is) (world ∙ (λ i. (ok tt, (same i).world)));
        proxy = sym (ap (λ r. r.proxy) same) ∙ proxy;
      }

  -- What a proxy is built from.
  pub record IsBuilt (config : Config PublicKey CertPool) (rest_config : RestConfig)
      (cluster_id : String) (up_client : Client nats.World) (p : Process R) (w' : nats.World)
      : Type 0 where
    pub manager : NatsConnManager nats
    pub before_manager : nats.World
    pub before_connect : nats.World
    pub config_is : p.proxy.config ≡ config
    pub bearer : p.proxy.k8s_bearer ≡ R.bearer_token rest_config
    pub kube : R.parse_url (R.host rest_config) ≡ ok p.proxy.kube_host
    pub xgql : R.parse_url "https://xgql" ≡ ok p.proxy.xgql_host
    pub unready : p.proxy.is_ready ≡ none
    pub agent : p.agent ≡ none
    pub made :
        new_nats_conn_manager nats up_client cluster_id config.nats.control_plane_token
          config.nats.ca_bundle before_manager
        ≡ (ok manager, before_connect)
    pub connected :
        R.connect config.nats.endpoint (conn_options R config manager) before_connect
        ≡ (ok p.nc, w')
    pub world : p.world ≡ w'

  -- A proxy that `NewProxy` returns holds the configuration, the URLs of the rest config's host and
  -- of xgql, and the bearer token of the rest config; it is not ready and has no agent yet; and its
  -- connection is that to the configured endpoint with the options of a new manager, which was made
  -- from the control plane's token and certificates.
  pub new_proxy-IsBuilt :
      (config : Config PublicKey CertPool) (rest_config : RestConfig)
      (up_client : Client nats.World) (cluster_id : String) (w w' : nats.World) (p : Process R)
      → new_proxy R config rest_config up_client cluster_id w ≡ (ok p, w')
      → IsBuilt config rest_config cluster_id up_client p w'
  unfolding new_proxy
  new_proxy-IsBuilt config rest_config up_client cluster_id w w' p h =
      let (krt, w1, _, rest1) =
        or_wrap->>=-eq-ok _ (round_tripper_for_rest_config R rest_config) _ w h in
      let (kube, kube_is, rest2) =
        or_wrap-lift->>=-eq-ok _ (R.parse_url (R.host rest_config)) _ w1 rest1 in
      let (xgql, xgql_is, rest3) =
        or_wrap-lift->>=-eq-ok _ (R.parse_url "https://xgql") _ w1 rest2 in
      let make =
        new_nats_conn_manager nats up_client cluster_id config.nats.control_plane_token
          config.nats.ca_bundle in
      let (m, w2, made, rest4) = or_wrap->>=-eq-ok _ make _ w1 rest3 in
      let connect = R.connect config.nats.endpoint (conn_options R config m) in
      let (nc, w3, connected, done) = or_wrap->>=-eq-ok _ connect _ w2 rest4 in
      let same = ap (λ o. o.1) done in
      let is = ok-injective (ap (λ o. o.0) done) in
      record {
        manager = m;
        before_manager = w1;
        before_connect = w2;
        config_is = sym (ap (λ r. r.proxy.config) is);
        bearer = sym (ap (λ r. r.proxy.k8s_bearer) is);
        kube = kube_is ∙ (λ i. ok (is i).proxy.kube_host);
        xgql = xgql_is ∙ (λ i. ok (is i).proxy.xgql_host);
        unready = sym (ap (λ r. r.proxy.is_ready) is);
        agent = sym (ap (λ r. r.agent) is);
        made = made;
        connected = connected ∙ (λ i. (ok (is i).nc, same i));
        world = sym (ap (λ r. r.world) is) ∙ same;
      }
