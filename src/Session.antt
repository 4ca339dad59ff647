-- ===== src/Session.antt =====
-- The session: src/session_manager.cpp, with the tracks that it owns and the transport it drives.
pub mod Track
pub mod State
pub mod Url
pub mod Link
pub mod Control
pub mod Lifecycle
pub mod Configure
pub mod Media
pub mod Thread
pub mod Stable
pub mod Steps
pub mod Delay
pub mod Reconnect
pub mod Told
pub mod Failures
pub mod Sending
pub mod Status
pub mod Examples
mod Tests
