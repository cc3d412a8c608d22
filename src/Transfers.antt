-- ===== src/Transfers.antt =====
-- Transfers between a client and a server of lib/tftp.
pub mod Blocks
pub mod Traces
pub mod Download
pub mod Upload
