-- ===== src/Cluster.antt =====
-- How the operator brings the objects of a cluster to the state that it wants
-- (controllers/common/clusterActions.go, controllers/common/readiness_checks.go), and the objects
-- that it wants (controllers/model).
pub mod Readiness
pub mod Actions
pub mod Service
pub mod ConfigMap
pub mod State
