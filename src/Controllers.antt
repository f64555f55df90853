-- ===== src/Controllers.antt =====
-- The controllers and the state that they publish and match by.
pub mod State
pub mod Selectors
pub mod Dashboards
pub mod Grafanas
