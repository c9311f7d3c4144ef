-- ===== src/Config.antt =====
-- What the hub sends for a launch: the runtime policy, the bundle, the configuration, the entry list.
pub mod Values
pub mod Policy
pub mod Bundle
pub mod Redaction
pub mod Acceptance
pub mod Files
pub mod EntryList
pub mod SteamIds
pub mod Finalize
pub mod Prepare
pub mod Frames
pub mod Histories
pub mod Launching
