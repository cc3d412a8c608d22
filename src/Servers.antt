-- ===== src/Servers.antt =====
-- lib/tftp/servers/implementation: the server, and its operations.
pub mod Operation
pub mod Negotiation
pub mod Bounds
pub mod ReadOperation
pub mod WriteOperation
pub mod Server
