-- ===== src/Objects.antt =====
-- The objects of the cluster that the operator wants for a `Grafana` resource (controllers/model).
pub mod Resource
pub mod Deployment
pub mod Ingress
pub mod Accounts
pub mod Storage
