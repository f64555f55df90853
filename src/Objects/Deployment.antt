-- ===== src/Objects/Deployment.antt =====
-- The deployment of Grafana, of controllers/model/grafanaDeployment.go.
pub mod Pod
pub mod Probes
pub mod Volumes
pub mod Containers
pub mod Spec
