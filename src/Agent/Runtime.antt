-- ===== src/Agent/Runtime.antt =====
-- What `NewProxy`, `Run` and `shutdown` of internal/upboundagent/proxy.go take from elsewhere, and
-- the state of a running proxy.
use universal_crossplane.Base.{ℕ, String, Bool, Option, List, Error, Result}
use universal_crossplane.Base.Dict.{Dict}
use universal_crossplane.Base.Effects.{Eff}
use universal_crossplane.Agent.Http.{Url, Proxy}
use universal_crossplane.Agent.Nats.{NatsEnv, NatsConnManager}

pub data Middleware : Type 0 where
  request_logger recover prometheus jaeger : Middleware

pub data Handler : Type 0 where
  k8s_handler xgql_handler readyz_handler livez_handler : Handler

-- The `echo.Echo` that `setupRouter` builds, which is also the handler of the server.
pub record Router : Type 0 where
  pub middleware : List Middleware
  pub routes : Dict Handler

-- `http.Server`. Times are in nanoseconds, 0 for no limit.
pub record HttpServer : Type 0 where
  pub handler : Router
  pub addr : String
  pub read_timeout : ℕ
  pub read_header_timeout : ℕ
  pub write_timeout : ℕ

-- An option of `nats.Connect`.
pub data NatsOption (N : NatsEnv) : Type 0 where
  name : String → NatsOption N
  user_jwt : NatsConnManager N → NatsOption N
  root_cas : String → NatsOption N
  preset : String → NatsOption N

-- What ends the wait of `Run`: a signal, or the server stops with an error other than
-- `http.ErrServerClosed`.
pub data Stop : Type 0 where
  signalled : Stop
  server_failed : Error → Stop

-- The rest clients of Kubernetes, NATS, uuid, net/http and the clock.
pub record Runtime : Type 1 where
  pub nats : NatsEnv
  pub PublicKey : Type 0
  pub CertPool : Type 0
  pub Transport : Type 0
  pub RestConfig : Type 0
  pub TlsConf : Type 0
  pub TransportConf : Type 0
  pub Conn : Type 0
  pub Uuid : Type 0
  pub host : RestConfig → String
  pub bearer_token : RestConfig → String
  pub tls_config_for : RestConfig → Result TlsConf
  pub transport_config : RestConfig → Result TransportConf
  pub http_wrappers_for_config : TransportConf → TlsConf → Result Transport
  pub parse_url : String → Result Url
  pub setup_conn_options : List (NatsOption nats) → List (NatsOption nats)
  pub connect : String → List (NatsOption nats) → Eff nats.World Conn
  pub status : Conn → nats.World → ℕ
  pub parse_uuid : String → Result Uuid
  pub uuid_string : Uuid → String
  pub listen : Conn → Uuid → Router → String → ℕ → Eff nats.World (Unit {0})
  pub drain : Uuid → Eff nats.World (Unit {0})
  pub is_draining : nats.World → Bool
  pub wait : HttpServer → String → String → nats.World → Stop × nats.World
  pub shutdown_server : HttpServer → ℕ → Eff nats.World (Unit {0})
  pub now : nats.World → ℕ
  pub sleep : ℕ → nats.World → nats.World

-- A proxy that runs: `Proxy` with its connection, its agent and its server, and the world.
pub record Process (R : Runtime) : Type 0 where
  pub proxy : Proxy R.PublicKey R.CertPool R.Transport
  pub nc : R.Conn
  pub agent : Option R.Uuid
  pub server : Option HttpServer
  pub world : R.nats.World
