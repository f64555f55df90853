-- ===== src/Config.antt =====
-- The state that the controllers of one process share.
pub mod ConfigValue
pub mod ControllerConfig
