-- ===== src/Commands/UpboundAgent/Connection.antt =====
-- The proxy that `main` of cmd/upbound-agent/main.go connects, with its identity towards NATS.
use mathlib.Core.Path.{subst}
use universal_crossplane.Base.{
  text-cases, ◌<>◌, [], ◌∷◌, ◌++◌, String, ◌≡◌, ◌≢◌, sym, ap, ◌∙◌, inl, inr, Result, ok,
  ok-injective,
}
use universal_crossplane.Base.Effects.{
  lift-eq-ok, ◌>>=◌, or_wrap->>=-eq-ok, or_wrap-lift->>=-eq-ok, >>=-eq-ok, or_wrap-eq-ok,
}
use universal_crossplane.Clients.Upbound.{new_client}
use universal_crossplane.Agent.Config.{Config}
use universal_crossplane.Agent.Nats.{NatsConnManager}
use universal_crossplane.Agent.Nats.Histories.{new_nats_conn_manager-IsFor}
use universal_crossplane.Agent.Runtime.{Runtime, Process, name, user_jwt, root_cas}
use universal_crossplane.Agent.Startup.{new_proxy, conn_options}
use universal_crossplane.Agent.Startup.Laws.{new_proxy-IsBuilt}
use universal_crossplane.Commands.UpboundAgent.Env.{AgentCmd, AgentEnv}
use universal_crossplane.Commands.UpboundAgent.{
  non_empty_uid, read_kube_cluster_id, configure, connect,
}
use universal_crossplane.Commands.UpboundAgent.Laws.{IsConfigured, configure-IsConfigured}

module _ {R : Runtime} (A : AgentEnv R) where
  open R use {nats, PublicKey, CertPool}

  -- What the connection of a proxy is made of: the manager of its options has the token, the UID
  -- of kube-system and the client of the Upbound API, with which it asks for the NATS tokens, and
  -- the certificates of the Upbound API in its file.
  pub record IsConnected (a : AgentCmd) (token : String) (p : Process R) (w' : nats.World)
      : Type 0 where
    pub configured : IsConfigured A a token p.proxy.config
    pub rest_config : R.RestConfig
    pub kube : A.Kube
    pub cluster_id : String
    pub manager : NatsConnManager nats
    pub before_uid : nats.World
    pub after_uid : nats.World
    pub before_connect : nats.World
    pub new_kube : A.new_kube rest_config ≡ ok kube
    pub uid_is : A.get_namespace_uid kube "kube-system" before_uid ≡ (ok cluster_id, after_uid)
    pub uid_ne : cluster_id ≢ ""
    pub asks_with : manager.cp_token ≡ token
    pub asks_for : manager.cluster_id ≡ cluster_id
    pub asks : manager.up_client ≡ new_client A.resty a.upbound_api_endpoint a.debug
    pub signs : nats.public_key manager.kp ≡ ok manager.pub_key
    pub connected :
        R.connect p.proxy.config.nats.endpoint
          (R.setup_conn_options
              (name (p.proxy.config.control_plane_id <> "-" <> p.proxy.config.nats.name) ∷ [])
            ++ (user_jwt manager ∷ root_cas manager.ca_file ∷ []))
          before_connect
        ≡ (ok p.nc, w')

  non_empty_uid-eq_ok : (uid id : String) → non_empty_uid A uid ≡ ok id → (uid ≡ id) × (id ≢ "")
  non_empty_uid-eq_ok uid id h = elim (text-cases uid "") [
    | inl (blank, _) ↦ absurd (cc (rw blank at h))
    | inr (given, ne) ↦ let same = ok-injective (rw given at h) in (same, rw (← same) ne)
  ]

  connect-IsBuilt :
      (a : AgentCmd) (token : String) (config : Config PublicKey CertPool) (w w' : nats.World)
      (p : Process R)
      → IsConfigured A a token config
      → connect A a config w ≡ (ok p, w')
      → IsConnected a token p w'
  unfolding connect read_kube_cluster_id
  connect-IsBuilt a token config w w' p c h =
      let (rest_config, w1, _, rest1) = or_wrap->>=-eq-ok _ A.get_config _ w h in
      let (kube, new_kube, rest2) = or_wrap-lift->>=-eq-ok _ (A.new_kube rest_config) _ w1 rest1 in
      let (cluster_id, w2, read, rest3) =
        or_wrap->>=-eq-ok _ (read_kube_cluster_id A kube) _ w1 rest2 in
      let (uid, w3, uid_is, rest4) =
        or_wrap->>=-eq-ok _ (A.get_namespace_uid kube "kube-system") _ w1 read in
      let (same, ne) =
        non_empty_uid-eq_ok uid cluster_id (lift-eq-ok (non_empty_uid A uid) w3 rest4).0 in
      let client = new_client A.resty a.upbound_api_endpoint a.debug in
      let b =
        new_proxy-IsBuilt R config rest_config client cluster_id w2 w' p
          (or_wrap-eq-ok _ (new_proxy R config rest_config client cluster_id) w2 rest3) in
      let connects : Config PublicKey CertPool → Result R.Conn × nats.World =
        λ c. R.connect c.nats.endpoint (conn_options R c b.manager) b.before_connect in
      let made =
        new_nats_conn_manager-IsFor nats client cluster_id config.nats.control_plane_token
          config.nats.ca_bundle _ _ b.manager b.made in
      record {
        configured = subst (IsConfigured A a token) (sym b.config_is) c;
        rest_config = rest_config;
        kube = kube;
        cluster_id = cluster_id;
        manager = b.manager;
        before_uid = w1;
        after_uid = w3;
        before_connect = b.before_connect;
        new_kube = new_kube;
        uid_is = rw same at uid_is;
        uid_ne = ne;
        asks_with = made.token_is ∙ c.token_is;
        asks_for = made.cluster_is;
        asks = made.client_is;
        signs = made.public;
        connected = ap connects b.config_is ∙ b.connected;
      }

  -- A proxy that `main` builds from a token serves the control plane of that token: its id is the
  -- one that is read from the token, and its public key and its NATS certificates are those that
  -- the Upbound API gave for the token. It connects to NATS at its endpoint, named for that id,
  -- with a manager that asks the Upbound API for NATS tokens with the token of the control plane,
  -- the UID of kube-system as the cluster id, and the public key of the key pair with which it
  -- signs.
  pub connect-IsConnected :
      (a : AgentCmd) (token : String) (w w' : nats.World) (p : Process R)
      → (configure A a token >>= connect A a) w ≡ (ok p, w')
      → IsConnected a token p w'
  connect-IsConnected a token w w' p h =
      let (config, w1, configured, connected) = >>=-eq-ok (configure A a token) (connect A a) w h in
      connect-IsBuilt a token config w1 w' p
        (configure-IsConfigured A a token w w1 config configured) connected
