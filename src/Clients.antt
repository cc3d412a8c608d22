-- ===== src/Clients.antt =====
-- lib/tftp/clients: the client operations, and what their negotiation shares.
pub mod Operation
pub mod RequestOptions
pub mod ReadOperation
pub mod WriteOperation
