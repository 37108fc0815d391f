-- ===== src/Symbols.antt =====
-- ads_async/symbols.py: the memory of the PLC, the symbols in it, and the database of data areas.
mod Defs
mod Access
pub mod Memory
pub mod Laws
pub mod Stable
pub mod Tmc
pub mod Loading
pub mod Map
unfoldable pub use Defs.*
unfoldable pub use Access.*
