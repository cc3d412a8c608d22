-- ===== src/Tests.antt =====
-- The theorems on lib/tftp at concrete inputs.
pub mod PacketTests
pub mod ClientTests
pub mod ServerTests
pub mod TransferTests
pub mod UploadTests
