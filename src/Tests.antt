-- ===== src/Tests.antt =====
-- Runs of the model of the daemon on a small system, one for each result that has hypotheses.
pub mod World
pub mod States
pub mod Tables
pub mod Threads
pub mod Requests
pub mod Restart
pub mod Settings
pub mod Signals
pub mod Client
pub mod Reached
