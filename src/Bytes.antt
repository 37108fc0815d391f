-- ===== src/Bytes.antt =====
-- Bytes of the little-endian, packed ctypes structures of ads_async/structs.py. A byte string is a
-- list of numbers below 256; a structure is laid out as a list of the widths of its fields.
mod Defs
mod Laws
unfoldable pub use Defs.*
pub use Laws.*
