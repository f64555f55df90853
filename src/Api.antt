-- ===== src/Api.antt =====
-- Grafana's HTTP interface, as the operator uses it (controllers/grafanadashboard/grafana_client.go and
-- the calls of controllers/grafana/grafana_controller.go).
pub mod Types
pub mod Client
pub mod Users
