-- ===== src/Structs/NetId.antt =====
-- The text of a net id: `AmsNetId.from_string` and `__repr__` of ads_async/structs.py, with the
-- built-in `int` and `str` and the methods `split` and `join` that they call. A text is one of ASCII
-- characters; `int` takes also other digits and spaces of Unicode.
pub mod Defs
pub mod Decimal
pub mod RoundTrip
unfoldable pub use Defs.*
