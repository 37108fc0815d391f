-- ===== src/Service.antt =====
-- ads_async/service.py: the packets of the system service, which ask a PLC for its name and add
-- routes to it; and the tools of ads_async/bin that wait for its answers. What their UDP sockets give
-- is an argument.
pub mod Defs
pub mod Strings
pub mod Replies
pub mod Info
pub mod Status
pub mod Routes
pub mod Search
pub mod Found
