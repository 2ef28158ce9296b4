-- ===== src/Lib.antt =====
-- Universal Crossplane: the Upbound Agent and the bootstrapper.
--
-- The agent (cmd/upbound-agent) waits for a token of its control plane, asks the Upbound API for the
-- certificates that go with it, connects to NATS, and serves HTTP requests that come over NATS: `/k8s/*`
-- goes to the API server and `/query` to xgql, each impersonating the user of the request's token. The
-- bootstrapper (cmd/bootstrapper) runs two controllers: one issues the TLS certificates of the agent
-- and of xgql, the other registers the usage with AWS Marketplace. The two programs share no state but
-- the secrets in the cluster.
--
-- Files and code:
--   Base        Go's errors, results, effects, maps and texts, and tests on numbers and texts.
--   Jwt         github.com/dgrijalva/jwt-go as its callers see it.
--   Agent       internal/upboundagent/proxy.go, in parts. Header: `http.Header` and
--               `cloneAllowedHeaders`. Token: `reviewToken`. Impersonation: `getImpersonationConfig` and
--               `impersonationConfigForUser`. Http: requests, transports and `Proxy`. Handlers: `k8s`,
--               `xgql`, `livez`, `readyz`. Runtime: what is taken from elsewhere. Startup: `NewProxy`
--               and `setupRouter`. Lifecycle: `Run` and `shutdown` (Drain: the loop; Interleaving: the
--               run as a step relation with requests between the steps; Refinement: `shutdown` as
--               such steps).
--               Config: internal/upboundagent/config.go and
--               internal/upboundagent/internal/upboundapi.go. Nats: internal/upboundagent/natsconn.go.
--   Clients     internal/clients/upbound/upbound.go: `GetGatewayCerts`, `FetchNewJWTToken`, the log.
--   Controllers Kube: secrets, and internal/meta/meta.go. Manager: controller-runtime.
--               TlsSecrets: internal/controllers/tlssecrets/reconciler.go, with its parameters (Env),
--               what is assumed of the API server (Store), its methods (Monad), the data of secrets
--               (SecretData), the issue of certificates (Issue), `createOrLoadCA` and `Reconcile`
--               (Reconcile), `Setup` (Setup), the options and `NewReconciler` (Options), a cluster in which
--               no call fails (Healthy) or panics (Calm), and the specification over the stored secrets
--               alone, with histories of a namespace and how they converge, what a client finds in the
--               issued certificates, and several reconcilers at once (Cluster: Conflict, and
--               Interleaving, in steps of one call each; Alone relates these to whole reconciliations).
--               Billing: internal/controllers/billing/interfaces.go (Registerer),
--               internal/controllers/billing/aws/aws.go (Marketplace),
--               internal/controllers/billing/entitlement.go (Reconcile),
--               and its options and `NewReconciler` (Options),
--               internal/controllers/billing/setup.go (Setup).
--   Commands    UpboundAgent: cmd/upbound-agent/main.go (Serving: the handlers of the proxy that it
--               starts; Connection: its NATS identity; Waiting, Arrival: its wait for the token; Ending:
--               its end without an error). Bootstrapper: cmd/bootstrapper/main.go.
--   Examples    concrete instances of the parameters, runs, and the theorems applied to them.
-- A module Laws, or one named for what it shows, has the theorems on the module above it.
--
-- Conventions: a function that can fail returns a `Result`, where `panic` is a run-time panic; a
-- function with effects takes the state and returns it beside its result, so that what was written
-- before an error stays written. A library's code is a field of a record of parameters, whose `World`
-- holds what that code changes; what is assumed of it is a second record (`IsLawful`, `IsStore`,
-- `IsAtomic`, `IsHealthy`, `IsCalmEnv`, `IsKept`, `IsCounted`, `IsFiles`, `IsTime`), for which Examples
-- has an instance. A read of the API server that succeeds returns what is stored: stale caches are
-- modelled only in Cluster/Interleaving. Texts are lists of code points, and bytes are texts. Times
-- and durations are natural numbers of nanoseconds. A nil pointer is `none`. The wait of `Run` for a
-- signal or the failure of its server is a function that gives one of these: that it ends is not
-- shown, and the results speak of what follows.
--
-- Bounds: the drain loop of `shutdown` polls every 100 milliseconds until 20 seconds are over, so that
-- 201 checks are enough where a sleep takes its time. The wait for the control plane's token has no
-- bound in the code; its rounds are an argument, and n + 1 are enough where the file is mounted within
-- n periods. All other loops are recursions on their lists.
--
-- Not modelled: logging; the parsing of command lines; the contexts' deadlines but that of the drain,
-- as every call is a parameter that may fail; the bytes of a proxied response; the metrics and traces
-- of the router; internal/version, internal/generate.go and the generated mock; the chart under
-- cluster. The server runs beside the wait of `Run`: its requests stand between the steps of the run
-- and change the world, not the proxy, and each handler is one step.
pub mod Base
pub mod Jwt
pub mod Agent
pub mod Clients
pub mod Controllers
pub mod Commands
pub mod Examples
