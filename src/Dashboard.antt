-- ===== src/Dashboard.antt =====
-- The dashboards: the resource (api/integreatly/v1alpha1/grafanadashboard_types.go), the state that
-- the controllers share (controllers/config/controller_config.go) and the pipeline
-- (controllers/grafanadashboard/dashboard_pipeline.go).
pub mod Json
pub mod Resource
pub mod GrafanaCom
pub mod Pipeline
pub mod Processing
