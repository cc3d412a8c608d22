-- ===== src/Clients/WriteOperation/Run.antt =====
-- lib/tftp/clients/implementation/WriteOperationImpl.cpp: the virtual functions of the class, and the
-- operation driven by inputs.
use tftp_senior_design.Base.{ℕ, List}
use tftp_senior_design.Tftp.{TransmitDataHandler}
use tftp_senior_design.Network.{Network}
use tftp_senior_design.Helper.{RawData}
use tftp_senior_design.Packets.Handler.{Handlers}
use tftp_senior_design.Packets.Handler
use tftp_senior_design.Packets.Statistic
use tftp_senior_design.Clients.Operation.{Input}
use tftp_senior_design.Clients.Operation
use tftp_senior_design.Clients.Operation.Inputs
use tftp_senior_design.Clients.WriteOperation.{State, derived_finished}
use tftp_senior_design.Clients.WriteOperation.Transfer
use tftp_senior_design.Clients.WriteOperation.Negotiation

module _ (raw : RawData) {E H : Type 0} (h : TransmitDataHandler H) where
  abbrev pub handlers : Handlers E (State E H)
  handlers = record {
    read_request_packet = Operation.read_request_packet raw (derived_finished h);
    write_request_packet = Operation.write_request_packet raw (derived_finished h);
    data_packet = Transfer.data_packet raw h;
    acknowledgement_packet = Transfer.acknowledgement_packet raw h;
    error_packet = Operation.error_packet raw (derived_finished h);
    options_acknowledgement_packet = Negotiation.options_acknowledgement_packet raw h;
    invalid_packet = Operation.invalid_packet raw (derived_finished h);
    count = λ t n s. record s { receive_statistic = Statistic.packet t n s.receive_statistic };
  }

  -- A received packet.
  unfoldable pub packet : E → List ℕ → State E H → State E H
  packet = Handler.packet raw handlers

module _ (raw : RawData) {E H : Type 0} (net : Network E) (h : TransmitDataHandler H) where
  unfoldable pub step : Input E → State E H → State E H
  step = Inputs.step raw net (derived_finished h) (packet raw h)

  unfoldable pub run : List (Input E) → State E H → State E H
  run = Inputs.run raw net (derived_finished h) (packet raw h)
