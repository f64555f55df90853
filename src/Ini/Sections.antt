-- ===== src/Ini/Sections.antt =====
-- The sections of grafana.ini, one function for each.
pub mod General
pub mod Auth
pub mod Features
pub mod Storage
