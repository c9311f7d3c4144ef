-- ===== src/Commands.antt =====
-- The handler of a launch, on the files, the spool and the servers.
pub mod Launch
pub mod Once
