-- ===== src/Agent/Http.antt =====
-- The HTTP values that the handlers of internal/upboundagent/proxy.go work on, and `Proxy`.
use universal_crossplane.Base.{ℕ, String, Bool, Option, Error, eqb, if◌then◌else◌}
use universal_crossplane.Agent.Header.{Header}
use universal_crossplane.Agent.Config.{Config}
use universal_crossplane.Agent.Impersonation.{ImpersonationConfig}

-- `url.URL`: what the handlers touch, and the query that they leave.
pub record Url : Type 0 where
  pub scheme : String
  pub host : String
  pub path : String
  pub raw_query : String

-- The URLs by address: a request holds a pointer to its URL, which a shallow copy shares.
abbrev pub Urls : Type 0
Urls = ℕ → Url

abbrev pub write : ℕ → Url → Urls → Urls
write a u urls b = if eqb b a then u else urls b

pub record Request : Type 0 where
  pub header : Header
  pub url : ℕ
  pub remote_addr : String

-- `echo.Context`: the request, and the path parameters by name.
pub record Context : Type 0 where
  pub request : Request
  pub param : String → String

-- A response that the proxy writes itself.
pub record Response : Type 0 where
  pub status : ℕ
  pub body : String

pub record TlsConfig (CertPool : Type 0) : Type 0 where
  pub insecure_skip_verify : Bool
  pub root_cas : Option CertPool
  pub min_version : ℕ

-- How a proxied request is sent: `base` is a transport that was built elsewhere.
pub data RoundTripper (CertPool Transport : Type 0) : Type 0 where
  base : Transport → RoundTripper CertPool Transport
  http_transport : TlsConfig CertPool → RoundTripper CertPool Transport
  bearer_auth : String → RoundTripper CertPool Transport → RoundTripper CertPool Transport
  impersonating :
      ImpersonationConfig → RoundTripper CertPool Transport → RoundTripper CertPool Transport

-- `httputil.ReverseProxy`, for a single host.
pub record ReverseProxy (CertPool Transport : Type 0) : Type 0 where
  pub target : Url
  pub transport : RoundTripper CertPool Transport
  pub error_handler : Request → Error → Response

-- How a handler ends: an `echo.HTTPError` with its status and the error whose text is the message,
-- or a call of `ServeHTTP` on a reverse proxy with a request.
pub data Served (CertPool Transport : Type 0) : Type 0 where
  http_error : ℕ → Error → Served CertPool Transport
  proxied : ReverseProxy CertPool Transport → Request → Served CertPool Transport

-- `Proxy`: `is_ready` is `none` until a value is stored, and `nats_status` is that of `nc` now.
pub record Proxy (PublicKey CertPool Transport : Type 0) : Type 0 where
  pub config : Config PublicKey CertPool
  pub kube_host : Url
  pub kube_transport : Transport
  pub nats_status : ℕ
  pub xgql_host : Url
  pub k8s_bearer : String
  pub is_ready : Option Bool
