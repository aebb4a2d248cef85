-- ===== src/Tests.antt =====
-- Runs of the program at concrete values, with the fixtures that they share.
mod Fixtures
mod Domain
mod Dedup
mod Capabilities
mod Enablement
mod Router
mod Transports
mod Storage
mod Csv
mod Exchange
mod Pickup
mod Granting
mod Frames
mod DidDocument
mod Configs
mod Payloads
mod Wire
mod Registry
mod Bindings
