-- ===== src/Clients.antt =====
-- internal/clients: the clients of the agent.
pub mod Upbound
