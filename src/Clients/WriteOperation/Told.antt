-- ===== src/Clients/WriteOperation/Told.antt =====
-- How often a write operation calls its completion handler (request, and whatever follows).
use tftp_senior_design.Network.{Network}
use tftp_senior_design.Clients.Operation.Keeps
use tftp_senior_design.Clients.Operation.Inputs as Inputs
use tftp_senior_design.Clients.WriteOperation.Invariant
