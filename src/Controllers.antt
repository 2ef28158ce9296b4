-- ===== src/Controllers.antt =====
-- internal/controllers: the controllers of the bootstrapper, and internal/meta.
pub mod Kube
pub mod Manager
pub mod TlsSecrets
pub mod Billing
