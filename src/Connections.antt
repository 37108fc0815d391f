-- ===== src/Connections.antt =====
-- The connections of ads_async/protocol.py and the circuits that they hold.
pub mod Table
pub mod Defs
pub mod Server
pub mod Sessions
pub mod Refine
pub mod Receive
pub mod Buffers
pub mod Stream
