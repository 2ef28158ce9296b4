-- ===== src/Agent.antt =====
-- internal/upboundagent: the Upbound Agent's proxy.
pub mod Constants
pub mod Header
pub mod Config
pub mod Token
pub mod Impersonation
pub mod Http
pub mod Handlers
pub mod Nats
pub mod Runtime
pub mod Startup
pub mod Lifecycle
