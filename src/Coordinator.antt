-- ===== src/Coordinator.antt =====
-- agent/services/durable_command_executor.py: the coordinator between the hubs and the journal.
pub mod State
pub mod Operations
pub mod Execution
pub mod Queue
pub mod Keys
pub mod Workers
pub mod Jobs
pub mod Schedule
pub mod Replay
