-- ===== src/Notifications/Controller.antt =====
-- controllers/grafananotificationchannel/grafananotificationchannel_controller.go. What is logged, and the
-- message of an event, are left out; a nil pointer that is logged panics all the same.
pub mod Known
pub mod Publish
pub mod Reconcile
pub mod Places
