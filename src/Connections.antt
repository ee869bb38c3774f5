-- ===== src/Connections.antt =====
-- lib/connections.js: configuration of the queue's backend, and the options of its connections.
pub mod Coercions
pub mod Endpoints
pub mod Records
pub mod Config
pub mod Options
pub mod Bounds
pub mod Validity
pub mod Selection
pub mod Isolation
pub mod Roles
pub mod Urls
