-- ===== src/Client.antt =====
-- `ClientCircuit` of ads_async/protocol.py.
mod Defs
pub mod Delivery
pub mod Pending
pub mod Unknown
pub mod Requests
unfoldable pub use Defs.*
