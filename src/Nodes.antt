-- ===== src/Nodes.antt =====
-- bull-queue.js: the Node-RED nodes.
pub mod Failures
pub mod Backend
pub mod Flows
pub mod Shutdown
pub mod Job
pub mod Fields
pub mod Queues
pub mod Messages
pub mod Run
pub mod Resources
pub mod Startup
pub mod Inputs
pub mod Lifecycle
pub mod Closing
pub mod Deployment
