-- ===== src/Server.antt =====
-- `ServerCircuit` of ads_async/protocol.py. Its parts are State (the state, and methods that may
-- raise), Dispatch (the table of handlers), Access and Handlers (the handler methods) and Command
-- (`handle_command`); the other modules are named for what they are about.
pub mod State
pub mod Dispatch
pub mod Access
pub mod Handlers
pub mod Command
pub mod Routing
pub mod Called
pub mod Keeps
pub mod Atomic
pub mod Collect
pub mod Sumup
pub mod Failure
pub mod Fresh
pub mod Handles
pub mod Values
pub mod Info
pub mod Areas
pub mod Subscriptions
pub mod Invariant
pub mod Sessions
