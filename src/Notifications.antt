-- ===== src/Notifications.antt =====
-- Notification channels: what the operator knows of them, how a resource becomes a document, and the
-- client that sends it.
pub mod Config
pub mod Pipeline
pub mod Client
pub mod Controller
