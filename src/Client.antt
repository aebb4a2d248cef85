-- ===== src/Client.antt =====
-- trql-client/src: how a client finds a registry's transport, and how it demultiplexes replies.
pub mod Error
pub mod Query
pub mod Discovery
pub mod Pending
pub mod Https
pub mod Exchange
pub mod Didcomm
pub mod Tsp
