-- ===== src/Tests.antt =====
-- The theorems at concrete inputs.
mod Data
mod Protocol
mod Memory
mod Service
mod Peer
mod Exchange
mod Received
mod Naming
mod Packets
mod Layout
mod Sessions
mod Asynchronous
mod Reading
mod Looked
mod Logged
