-- ===== src/Servers/Operation.antt =====
-- lib/tftp/servers/implementation/OperationImpl.cpp: what both server operations share.
--
-- `E` is the type of endpoints, and `D` the part of the object that a derived class adds. A
-- `try` block around socket and timer calls draws one fault, which says whether one of them throws.
-- `is_open` says whether the socket is open, and `terminated` whether the program was terminated by an
-- exception out of a noexcept function.
-- `receiving` says whether `receiveHandler` is registered, and `timing` which timer handler is.
pub mod Inputs
pub mod Sending
pub mod Retries
use tftp_senior_design.Base.{
  ℕ, suc, Bool, true, false, not, Option, none, some, List, [], length, ◌*◌, ◌&&◌, ◌||◌, ◌∷◌, ◌==◌,
  if◌then◌else◌,
}
use tftp_senior_design.Text.{text}
use tftp_senior_design.Tftp.{
  TransferStatus, communication_error, option_negotiation_error, transfer_error, aborted,
  default_tftp_receive_timeout, default_tftp_retries,
}
use tftp_senior_design.Network.{Network, Event, sent, completed}
use tftp_senior_design.Helper.{RawData}
use tftp_senior_design.Packets.{PacketType, default_max_packet_size}
use tftp_senior_design.Packets.ErrorCode
use tftp_senior_design.Packets.Header.{packet_type}
use tftp_senior_design.Packets.ErrorMessage.{ErrorPacket, ErrorInformation, error_information}
use tftp_senior_design.Packets.OptionsAcknowledgement.{OptionsAcknowledgementPacket}
use tftp_senior_design.Packets.Packet.{Packet, kind, encode}
use tftp_senior_design.Packets.Request.{RequestPacket}
use tftp_senior_design.Packets.Statistic.{Statistic}
use tftp_senior_design.Packets.Statistic

-- `timeoutHandler` and `timeoutDallyHandler`.
pub data Timer : Type 0 where
  transfer_timer dally_timer : Timer

pub record Operation (E D : Type 0) : Type 0 where
  pub receive_timeout : ℕ
  pub tftp_retries : ℕ
  pub has_completion_handler : Bool
  pub remote : E
  pub local : E
  pub receive_packet_size : ℕ
  pub transmit_packet : List ℕ
  pub transmit_counter : ℕ
  pub error_info : ErrorInformation
  pub derived : D
  pub transmit_statistic : Statistic
  pub receive_statistic : Statistic
  pub receiving : Bool
  pub timing : Option (Timer × ℕ)
  pub is_open : Bool
  pub terminated : Bool
  pub faults : ℕ → Bool
  pub trace : List (Event E)

-- The constructor, for an operation whose calls fail as `faults` says.
unfoldable pub create : {E D : Type 0} → Network E → (ℕ → Bool) → D → Operation E D
create net faults d = record {
  receive_timeout = default_tftp_receive_timeout;
  tftp_retries = default_tftp_retries;
  has_completion_handler = false;
  remote = net.no_endpoint;
  local = net.no_endpoint;
  receive_packet_size = default_max_packet_size;
  transmit_packet = [];
  transmit_counter = 0;
  error_info = none;
  derived = d;
  transmit_statistic = [];
  receive_statistic = [];
  receiving = false;
  timing = none;
  is_open = false;
  terminated = false;
  faults = faults;
  trace = [];
}

module _ {E D : Type 0} where
  -- `tftpTimeout`, `tftpRetries`, `remote`, `local`, `completionHandler`, `maxReceivePacketSize` and
  -- `receiveTimeout`.
  unfoldable pub set_tftp_timeout : ℕ → Operation E D → Operation E D
  set_tftp_timeout n s = record s { receive_timeout = n }

  unfoldable pub set_tftp_retries : ℕ → Operation E D → Operation E D
  set_tftp_retries n s = record s { tftp_retries = n }

  unfoldable pub set_remote : E → Operation E D → Operation E D
  set_remote e s = record s { remote = e }

  unfoldable pub set_local : E → Operation E D → Operation E D
  set_local e s = record s { local = e }

  unfoldable pub set_completion_handler : Bool → Operation E D → Operation E D
  set_completion_handler b s = record s { has_completion_handler = b }

  unfoldable pub max_receive_packet_size : ℕ → Operation E D → Operation E D
  max_receive_packet_size n s = record s { receive_packet_size = n }

  unfoldable pub set_receive_timeout : ℕ → Operation E D → Operation E D
  set_receive_timeout n s = record s { receive_timeout = n }

  -- The next fault is drawn.
  abbrev pub advance : Operation E D → Operation E D
  advance s = record s { faults = λ n. s.faults (suc n) }

  abbrev pub log : Event E → Operation E D → Operation E D
  log e s = record s { trace = e ∷ s.trace }

module _ {E D : Type 0} (derived_finished : D → D) where
  -- The override of `finished` in the derived classes completes the data handler, and then calls
  -- `OperationImpl::finished`, which cancels the timer and the socket, closes it and calls the
  -- completion handler. Cancelling a closed socket throws, and the override is noexcept: the program
  -- terminates there, and the completion handler is not called.
  unfoldable pub finished : TransferStatus → ErrorInformation → Operation E D → Operation E D
  finished status info s = record s {
    derived = derived_finished s.derived;
    error_info = info;
    receiving = false;
    timing = none;
    is_open = false;
    terminated = s.terminated || not s.is_open;
    trace = if s.is_open && s.has_completion_handler then completed status ∷ s.trace else s.trace;
  }

  -- `abort`.
  unfoldable pub abort : Operation E D → Operation E D
  abort s = finished aborted none s

  -- `initialise`; a failure closes the socket and finishes the operation.
  unfoldable pub initialise : Operation E D → Operation E D
  initialise s =
      if s.faults 0
      then finished communication_error none (record (advance s) { is_open = false })
      else record (advance s) { is_open = true }

  -- `receive`.
  unfoldable pub receive : Operation E D → Operation E D
  receive s =
      if s.faults 0 then finished communication_error none (advance s) else record (advance s) {
        receiving = true;
        timing = some (transfer_timer, s.receive_timeout);
      }

  -- `receiveDally`.
  unfoldable pub receive_dally : Operation E D → Operation E D
  receive_dally s =
      if s.faults 0 then finished communication_error none (advance s) else record (advance s) {
        receiving = true;
        timing = some (dally_timer, 2 * s.receive_timeout);
      }

-- The status that `errorPacket` finishes with, by the packet sent last and the error code.
unfoldable pub error_status : PacketType → ℕ → TransferStatus
error_status PacketType.options_acknowledgement code =
    if code == ErrorCode.tftp_option_refused then option_negotiation_error else transfer_error
error_status _ code = transfer_error

module _ (raw : RawData) {E D : Type 0} (derived_finished : D → D) where
  -- What `send` does before it calls the socket.
  unfoldable pub prepare : Packet → Operation E D → Operation E D
  prepare p s = record s {
    transmit_counter = 1;
    transmit_packet = encode raw p;
    transmit_statistic = Statistic.packet (kind p) (length (encode raw p)) s.transmit_statistic;
  }

  -- `send`.
  unfoldable pub send : Packet → Operation E D → Operation E D
  send p s =
      if s.faults 0
      then finished derived_finished communication_error none (prepare p (advance s))
      else log (sent (encode raw p)) (prepare p (advance s))

  -- An error packet is sent, and the operation finishes with its contents.
  unfoldable pub refuse : ℕ → List ℕ → TransferStatus → Operation E D → Operation E D
  refuse code message status s =
      let p : ErrorPacket = record { error_code = code; error_message = message } in
      finished derived_finished status (error_information p) (send (Packet.error p) s)

  -- `gracefulAbort`.
  unfoldable pub graceful_abort : ℕ → List ℕ → Operation E D → Operation E D
  graceful_abort code message s = refuse code message aborted s

  -- `readRequestPacket`, `writeRequestPacket`, `optionsAcknowledgementPacket` and `invalidPacket`.
  unfoldable pub read_request_packet : E → RequestPacket → Operation E D → Operation E D
  read_request_packet remote p s =
      refuse ErrorCode.illegal_tftp_operation (text "RRQ packet isn't expected") transfer_error s

  unfoldable pub write_request_packet : E → RequestPacket → Operation E D → Operation E D
  write_request_packet remote p s =
      refuse ErrorCode.illegal_tftp_operation (text "WRQ packet isn't expected") transfer_error s

  unfoldable pub options_acknowledgement_packet :
      E → OptionsAcknowledgementPacket → Operation E D → Operation E D
  options_acknowledgement_packet remote p s =
      refuse ErrorCode.illegal_tftp_operation (text "OACK packet isn't expected") transfer_error s

  unfoldable pub invalid_packet : E → List ℕ → Operation E D → Operation E D
  invalid_packet remote packet s =
      refuse ErrorCode.illegal_tftp_operation (text "Invalid packet isn't expected") transfer_error
        s

  -- `errorPacket`.
  unfoldable pub error_packet : E → ErrorPacket → Operation E D → Operation E D
  error_packet remote p s =
      finished derived_finished (error_status (packet_type raw s.transmit_packet) p.error_code)
        (error_information p) s
