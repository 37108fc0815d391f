-- ===== src/Symbols/Tmc.antt =====
-- `tmc_to_symbols` and `TmcTypes` of ads_async/symbols.py: from the items of a .tmc file to symbols.
pub mod Defs
pub mod Types
pub mod Placed
pub mod Bounds
unfoldable pub use Defs.*
