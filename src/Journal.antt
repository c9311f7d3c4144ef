-- ===== src/Journal.antt =====
-- agent/services/agent_command_journal.py: the durable journal of the commands of the hubs.
pub mod Types
pub mod Contract
pub mod Operations
pub mod Invariant
pub mod Outcomes
pub mod Effects
pub mod Preserves
pub mod Receipts
pub mod Steps
pub mod Fences
pub mod Progress
pub mod Acknowledgements
