-- ===== src/Relay.antt =====
-- internal/relay: the relay server and its store.
pub mod Store
pub mod Log
pub mod Open
pub mod Sessions
pub mod Server
pub mod Tunnel
pub mod Topics
pub mod Distinct
pub mod Invariant
pub mod Fanout
pub mod Replay
pub mod Window
pub mod Steps
mod Tests
