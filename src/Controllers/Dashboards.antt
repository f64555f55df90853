-- ===== src/Controllers/Dashboards.antt =====
-- The controller of dashboards, of controllers/grafanadashboard/grafanadashboard_controller.go. Log lines are
-- left out, and so are the set-up of the controller and its watches.
pub mod Known
pub mod Publish
pub mod Process
pub mod Remove
pub mod Reconcile
pub mod Distinct
