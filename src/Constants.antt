-- ===== src/Constants.antt =====
-- ads_async/constants.py: the enumerations that the protocol code compares with. An `IntEnum` is
-- equal to its number, so index groups, ports and error codes are numbers with names.
mod Commands
mod DataTypes
mod States
pub mod IndexGroup
pub mod AdsError
pub mod Flag
unfoldable pub use Commands.*
unfoldable pub use DataTypes.*
pub use States.*
