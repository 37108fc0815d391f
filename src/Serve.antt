-- ===== src/Serve.antt =====
-- `AsyncioServerConnection` of ads_async/asyncio/server.py: the answer to one command.
mod Defs
pub mod Answers
pub mod Received
pub mod Response
pub mod Exchange
pub mod Names
unfoldable pub use Defs.*
