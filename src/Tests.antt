-- ===== src/Tests.antt =====
-- The theorems at concrete inputs, and tests of the definitions.
mod Plugins
mod Ini
mod Config
mod Dashboard
mod Cluster
mod Reconciler
mod Objects
mod Api
mod Controllers
mod Notifications
