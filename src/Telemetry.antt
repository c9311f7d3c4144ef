-- ===== src/Telemetry.antt =====
-- What the agent learns of the machine's load and of the game from its log and its HTTP status.
pub mod Classify
pub mod Log
pub mod Lines
pub mod Observer
pub mod Pieces
pub mod Facts
pub mod Drivers
