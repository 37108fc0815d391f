-- ===== src/Wire.antt =====
-- The wire format of ads_async/protocol.py: `from_wire`, `_Connection.received_data`,
-- `request_to_wire` and `response_to_wire`.
mod Defs
pub mod Progress
pub mod Frames
pub mod Requests
pub mod Stream
pub mod Discard
pub mod Typed
unfoldable pub use Defs.*
