-- ===== src/Servers/ReadOperation/Run.antt =====
-- lib/tftp/servers/implementation/ReadOperationImpl.cpp: the virtual functions of the class, and the
-- operation driven by inputs.
use tftp_senior_design.Base.{ℕ, List}
use tftp_senior_design.Tftp.{TransmitDataHandler}
use tftp_senior_design.Helper.{RawData}
use tftp_senior_design.Packets.Handler.{Handlers}
use tftp_senior_design.Packets.Handler
use tftp_senior_design.Packets.Statistic
use tftp_senior_design.Servers.Operation
use tftp_senior_design.Servers.Operation.Inputs.{Input}
use tftp_senior_design.Servers.Operation.Inputs
use tftp_senior_design.Servers.ReadOperation.{State, derived_finished}
use tftp_senior_design.Servers.ReadOperation.Transfer

module _ (raw : RawData) {E H : Type 0} (h : TransmitDataHandler H) where
  abbrev pub handlers : Handlers E (State E H)
  handlers = record {
    read_request_packet = Operation.read_request_packet raw (derived_finished h);
    write_request_packet = Operation.write_request_packet raw (derived_finished h);
    data_packet = Transfer.data_packet raw h;
    acknowledgement_packet = Transfer.acknowledgement_packet raw h;
    error_packet = Operation.error_packet raw (derived_finished h);
    options_acknowledgement_packet =
        Operation.options_acknowledgement_packet raw (derived_finished h);
    invalid_packet = Operation.invalid_packet raw (derived_finished h);
    count = λ t n s. record s { receive_statistic = Statistic.packet t n s.receive_statistic };
  }

  -- A received packet.
  unfoldable pub packet : E → List ℕ → State E H → State E H
  packet = Handler.packet raw handlers

  unfoldable pub step : Input → State E H → State E H
  step = Inputs.step raw (derived_finished h) packet

  unfoldable pub run : List Input → State E H → State E H
  run = Inputs.run raw (derived_finished h) packet
