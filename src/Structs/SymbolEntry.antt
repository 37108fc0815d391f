-- ===== src/Structs/SymbolEntry.antt =====
-- `AdsSymbolEntry` of ads_async/structs.py: the information on a symbol that a server sends.
mod Defs
pub mod Lengths
pub mod RoundTrip
unfoldable pub use Defs.*
