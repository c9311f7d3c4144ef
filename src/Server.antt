-- ===== src/Server.antt =====
-- The game servers: their ports, their start and stop, and their restoration after a restart of the agent.
pub mod Ports
pub mod Waiting
pub mod Instances
pub mod Orphans
pub mod Owners
pub mod Stops
pub mod Identity
pub mod Persistence
pub mod Adoption
pub mod RoundTrip
