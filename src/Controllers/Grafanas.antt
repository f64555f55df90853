-- ===== src/Controllers/Grafanas.antt =====
-- The controller of Grafana, of controllers/grafana/grafana_controller.go, and the jsonnet libraries of
-- controllers/grafana/grafonnet_utils.go. Log lines are left out, and so are the set-up of the controller and its
-- watches.
pub mod Types
pub mod Libraries
pub mod AdminUrl
pub mod Reconcile
pub mod Published
