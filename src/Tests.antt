-- ===== src/Tests.antt =====
-- Concrete runs of the model, and the theorems at concrete inputs.
pub mod JournalTests
pub mod CoordinatorTests
pub mod AgentTests
pub mod TelemetryTests
pub mod SpoolTests
pub mod ServerTests
pub mod ConfigTests
pub mod CommandTests
