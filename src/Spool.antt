-- ===== src/Spool.antt =====
-- The results of the races: agent/services/result_artifact_spool.py and result_pipeline.py.
pub mod Types
pub mod Deliveries
pub mod Purge
pub mod Scans
pub mod Launches
pub mod Pipeline
pub mod Stored
pub mod Purges
pub mod Life
pub mod Retries
pub mod Taking
pub mod Observed
