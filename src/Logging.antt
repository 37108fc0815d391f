-- ===== src/Logging.antt =====
-- ads_async/log.py: the filters of log records, and the handler of the package's logger.
pub mod Glob
mod Defs
pub mod Passes
pub mod Addresses
pub mod Handler
pub mod Lines
pub mod Format
unfoldable pub use Defs.*
