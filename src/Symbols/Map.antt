-- ===== src/Symbols/Map.antt =====
-- `map_symbols_in_memory` of ads_async/symbols.py: which symbols a byte of memory belongs to.
pub mod Defs
pub mod Marks
pub mod Order
pub mod Covered
pub mod Dump
pub mod Lines
unfoldable pub use Defs.*
