-- ===== src/Peer.antt =====
-- runtime/peer.py: one connection, as messages. `Requests` has `Request`, `Routing` the parts of
-- `Peer` that keep the requests, `Steps` what can happen on a connection.
pub mod Requests
pub mod Routing
pub mod Steps
pub mod Invariant
pub mod Reading
pub mod Received
pub mod Closing
