-- ===== src/Runtime.antt =====
-- The game server processes and what the agent reports of them.
pub mod Supervisor
pub mod Exits
pub mod Tracker
pub mod Session
pub mod Guard
