-- ===== src/Counter.antt =====
-- `ThreadsafeCounter` of ads_async/utils.py. A call holds the counter's lock throughout, so calls
-- follow one another, and each is a function of the counter's state.
pub mod Fresh
mod Defs
unfoldable pub use Defs.*
