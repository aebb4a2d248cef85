-- ===== src/Didcomm.antt =====
-- The DIDComm side: trust-registry/src/didcomm.
pub mod Pickup
pub mod Transport
pub mod Routing
pub mod Listener
pub mod DidDocument
pub mod ProblemReport
pub mod Admin
pub mod TrustTasks
pub mod Trqp
