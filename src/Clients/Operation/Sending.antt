-- ===== src/Clients/Operation/Sending.antt =====
-- lib/tftp/clients/implementation/OperationImpl.cpp: send, where the socket does not fail.
use tftp_senior_design.Base.{refl, false, ◌≡◌}
use tftp_senior_design.Network.{sent}
use tftp_senior_design.Helper.{RawData}
use tftp_senior_design.Packets.Packet.{Packet, encode}
use tftp_senior_design.Clients.Operation.{Operation, advance, log, prepare, send}

pub send_faultless :
    {E D : Type 0} (raw : RawData) (derived_finished : D → D) (q : Packet) (s : Operation E D)
    → s.faults 0 ≡ false
    → send raw derived_finished q s
      ≡ log (sent (encode raw q)) (prepare raw derived_finished q (advance s))
unfolding send
send_faultless raw derived_finished q s f = rw (f, send) refl
