-- ===== src/Examples.antt =====
-- Runs of the models on concrete data, and the theorems applied to them.
pub mod Parser
pub mod Requests
pub mod Cluster
pub mod Certificates
pub mod Usage
pub mod Api
pub mod Namespaces
pub mod Entitlement
pub mod Running
pub mod Bootstrap
pub mod Texts
