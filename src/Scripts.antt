-- ===== src/Scripts.antt =====
-- scripts/run-deployment-tests.js: the test runner, which starts each deployment with Docker, waits for its
-- store, runs the tests against it and takes it down.
pub mod Shell
pub mod Waiting
pub mod Probes
pub mod Environments
pub mod Runner
