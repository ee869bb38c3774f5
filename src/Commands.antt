-- ===== src/Commands.antt =====
-- lib/commands.js: the commands of a message, as calls on the queue.
pub mod Names
pub mod Jobs
pub mod Dispatch
pub mod Permitted
pub mod Calls
pub mod Reads
pub mod Stop
