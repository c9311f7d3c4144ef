-- ===== src/Connection.antt =====
-- The connection to a hub: agent/services/websocket_authentication.py, websocket_heartbeat.py and
-- websocket_inbox.py.
pub mod Backoff
pub mod Hello
pub mod Inbox
pub mod Frames
pub mod Messages
pub mod Answers
