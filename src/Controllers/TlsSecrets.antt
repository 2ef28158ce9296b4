-- ===== src/Controllers/TlsSecrets.antt =====
-- internal/controllers/tlssecrets: certificates for the agent and for xgql.
pub mod Env
pub mod Store
pub mod Monad
pub mod SecretData
pub mod Issue
pub mod Reconcile
pub mod Setup
pub mod Cluster
pub mod Healthy
pub mod Calm
pub mod Options
