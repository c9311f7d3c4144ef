-- ===== src/Maintenance.antt =====
-- agent/services/agent_command_maintenance.py and the daily cleanup of agent_command_journal.py.
pub mod Operations
pub mod Purge
pub mod Exact
