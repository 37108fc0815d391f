-- ===== src/Asyncio.antt =====
-- The asyncio client of ads_async/asyncio. Tasks run one at a time, up to their next `await`; what a
-- model does in one step, the code does with no `await` that lets another task at the same data.
pub mod Callbacks
pub mod Delivered
pub mod Runs
pub mod Kept
pub mod Circuit
pub mod Events
pub mod Waiting
pub mod Others
pub mod Answered
pub mod Values
pub mod Symbols
pub mod Released
pub mod Channel
pub mod Responses
pub mod Requested
pub mod Arrivals
pub mod ByName
pub mod Connection
pub mod Received
pub mod Exchange
pub mod Closing
pub mod Closed
pub mod Unnamed
