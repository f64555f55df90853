-- ===== src/Ini.antt =====
-- grafana.ini: the configuration of a `Grafana` resource as text
-- (controllers/config/grafanaIni.go).
pub mod Types
pub mod Items
pub mod Sections
pub mod ParseConfig
pub mod Write
