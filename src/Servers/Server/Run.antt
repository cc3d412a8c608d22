-- ===== src/Servers/Server/Run.antt =====
-- lib/tftp/servers/implementation/ServerImpl.cpp: receiveHandler, and the server driven by what arrives.
use tftp_senior_design.Base.{ℕ, true, false, List, [], take, ◌∷◌, if◌then◌else◌}
use tftp_senior_design.Network.{Completion, success, operation_aborted, failure}
use tftp_senior_design.Helper.{RawData}
use tftp_senior_design.Packets.Handler.{Handlers}
use tftp_senior_design.Packets.Handler
use tftp_senior_design.Packets.Statistic
use tftp_senior_design.Servers.Server.{Server, receive}
use tftp_senior_design.Servers.Server

module _ (raw : RawData) {E : Type 0} where
  -- What escapes from a handler skips the statistic.
  abbrev pub handlers : Handlers E (Server E)
  handlers = record {
    read_request_packet = Server.read_request_packet raw;
    write_request_packet = Server.write_request_packet raw;
    data_packet = Server.data_packet raw;
    acknowledgement_packet = Server.acknowledgement_packet raw;
    error_packet = Server.error_packet raw;
    options_acknowledgement_packet = Server.options_acknowledgement_packet raw;
    invalid_packet = Server.invalid_packet raw;
    count = λ t n s.
        if s.escaped
        then s
        else record s { receive_statistic = Statistic.packet t n s.receive_statistic };
  }

  -- A received packet.
  unfoldable pub packet : E → List ℕ → Server E → Server E
  packet = Handler.packet raw handlers

  -- `receiveHandler`: after a packet that raises no exception the next one is received.
  unfoldable pub receive_handler : Completion → E → List ℕ → Server E → Server E
  receive_handler operation_aborted remote bytes s = s
  receive_handler failure remote bytes s = record s { escaped = true }
  receive_handler success remote bytes s =
      let handled = packet remote bytes s in if handled.escaped then handled else receive handled

  -- A packet that arrives calls the handler if it is registered, once. What does not fit into the
  -- buffer is cut off: the socket reports no error for it.
  unfoldable pub arrive : E → List ℕ → Server E → Server E
  arrive remote bytes s =
      if s.receiving
      then receive_handler success remote (take s.receive_packet_size bytes)
          (record s { receiving = false })
      else s

  -- One packet after the other.
  unfoldable pub serve : List (E × List ℕ) → Server E → Server E
  serve [] s = s
  serve ((remote, bytes) ∷ l) s = serve l (arrive remote bytes s)
