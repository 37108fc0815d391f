-- ===== src/Structs.antt =====
-- ads_async/structs.py: the structures that travel on the wire. Each is a record of its raw fields;
-- `layout` lists the widths of its `_fields_`, and `from_buffer` and `serialize` go by it.
pub mod Base
pub mod Address
pub mod Header
pub mod Request
pub mod Response
pub mod Notification
pub mod Item
pub mod Text
pub mod NetId
pub mod Log
pub mod SymbolEntry
pub mod RoundTrip
pub mod Samples
pub mod Stamps
