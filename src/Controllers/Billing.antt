-- ===== src/Controllers/Billing.antt =====
-- internal/controllers/billing: registration of the usage with AWS Marketplace.
pub mod Registerer
pub mod Marketplace
pub mod Reconcile
pub mod Options
pub mod Setup
