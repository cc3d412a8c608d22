-- ===== src/Clients/Operation.antt =====
-- lib/tftp/clients/implementation/OperationImpl.cpp: what both client operations share.
--
-- `E` is the type of endpoints, and `D` the part of the object that a derived class adds. A
-- `try` block around socket and timer calls draws one fault, which says whether one of them throws.
-- `is_open` says whether the socket is open, and `terminated` whether the program was terminated by an
-- exception out of a noexcept function.
-- `receiving` and `timing` are the completion handlers that are registered.
pub mod Inputs
pub mod Sending
pub mod Setup
pub mod Keeps
pub mod Steps
pub mod Retries
pub mod Told
use tftp_senior_design.Base.{
  ℕ, suc, Bool, false, not, Option, none, some, List, [], length, ◌*◌, ◌&&◌, ◌||◌, ◌∷◌, ◌==◌,
  if◌then◌else◌,
}
use tftp_senior_design.Text.{text}
use tftp_senior_design.Tftp.{
  TransferStatus, communication_error, request_error, option_negotiation_error, transfer_error,
  aborted, successful, default_tftp_receive_timeout, default_tftp_retries,
}
use tftp_senior_design.Network.{
  Network, Completion, success, operation_aborted, failure, Event, sent, sent_to, connected,
  completed,
}
use tftp_senior_design.Helper.{RawData}
use tftp_senior_design.Packets.{PacketType, default_max_packet_size}
use tftp_senior_design.Packets.ErrorCode
use tftp_senior_design.Packets.Header.{packet_type}
use tftp_senior_design.Packets.ErrorMessage.{ErrorPacket, ErrorInformation, error_information}
use tftp_senior_design.Packets.Packet.{Packet, kind, encode}
use tftp_senior_design.Packets.Request.{RequestPacket}
use tftp_senior_design.Packets.Statistic.{Statistic}
use tftp_senior_design.Packets.Statistic

-- `receiveFirstHandler` and `receiveHandler`.
pub data Receiver : Type 0 where
  first_receiver receiver : Receiver

-- `timeoutFirstHandler`, `timeoutHandler` and `timeoutDallyHandler`.
pub data Timer : Type 0 where
  first_timer transfer_timer dally_timer : Timer

pub record Operation (E D : Type 0) : Type 0 where
  pub receive_timeout : ℕ
  pub tftp_retries : ℕ
  pub has_completion_handler : Bool
  pub remote : E
  pub local : E
  pub receive_packet_size : ℕ
  pub receive_endpoint : E
  pub transmit_packet : List ℕ
  pub transmit_counter : ℕ
  pub error_info : ErrorInformation
  pub derived : D
  pub transmit_statistic : Statistic
  pub receive_statistic : Statistic
  pub receiving : Option Receiver
  pub timing : Option (Timer × ℕ)
  pub is_open : Bool
  pub terminated : Bool
  pub faults : ℕ → Bool
  pub trace : List (Event E)

-- What happens to an operation from outside. The last two are handlers that were queued with success
-- before the operation cancelled or replaced them, which are called all the same.
pub data Input (E : Type 0) : Type 0 where
  arrives : Completion → E → List ℕ → Input E
  expires : Completion → Input E
  aborts : Input E
  aborts_gracefully : ℕ → List ℕ → Input E
  arrived_before : Receiver → E → List ℕ → Input E
  expired_before : Timer → Input E

-- The constructor, for an operation whose calls fail as `faults` says.
unfoldable pub create : {E D : Type 0} → Network E → (ℕ → Bool) → D → Operation E D
create net faults d = record {
  receive_timeout = default_tftp_receive_timeout;
  tftp_retries = default_tftp_retries;
  has_completion_handler = false;
  remote = net.no_endpoint;
  local = net.no_endpoint;
  receive_packet_size = default_max_packet_size;
  receive_endpoint = net.no_endpoint;
  transmit_packet = [];
  transmit_counter = 0;
  error_info = none;
  derived = d;
  transmit_statistic = [];
  receive_statistic = [];
  receiving = none;
  timing = none;
  is_open = false;
  terminated = false;
  faults = faults;
  trace = [];
}

module _ {E D : Type 0} where
  -- The next fault is drawn.
  abbrev pub advance : Operation E D → Operation E D
  advance s = record s { faults = λ n. s.faults (suc n) }

  abbrev pub log : Event E → Operation E D → Operation E D
  log e s = record s { trace = e ∷ s.trace }

module _ {E D : Type 0} (derived_finished : D → D) where
  -- The override of `finished` in the derived classes completes the data handler, and then calls
  -- `OperationImpl::finished`, which cancels the timer and the socket, closes it and calls the
  -- completion handler. Cancelling a closed socket throws, and the override is noexcept: the program
  -- terminates there, and the completion handler is not called.
  unfoldable pub finished : TransferStatus → ErrorInformation → Operation E D → Operation E D
  finished status info s = record s {
    derived = derived_finished s.derived;
    error_info = info;
    receiving = none;
    timing = none;
    is_open = false;
    terminated = s.terminated || not s.is_open;
    trace = if s.is_open && s.has_completion_handler then completed status ∷ s.trace else s.trace;
  }

  -- `abort`.
  unfoldable pub abort : Operation E D → Operation E D
  abort s = finished aborted none s

  -- `receiveFirst`.
  unfoldable pub receive_first : Operation E D → Operation E D
  receive_first s =
      if s.faults 0 then finished communication_error none (advance s) else record (advance s) {
        receiving = some first_receiver;
        timing = some (first_timer, s.receive_timeout);
      }

  -- `receive`.
  unfoldable pub receive : Operation E D → Operation E D
  receive s =
      if s.faults 0 then finished communication_error none (advance s) else record (advance s) {
        receiving = some receiver;
        timing = some (transfer_timer, s.receive_timeout);
      }

  -- `receiveDally`.
  unfoldable pub receive_dally : Operation E D → Operation E D
  receive_dally s =
      if s.faults 0 then finished communication_error none (advance s) else record (advance s) {
        receiving = some receiver;
        timing = some (dally_timer, 2 * s.receive_timeout);
      }

  -- `timeoutDallyHandler`.
  unfoldable pub timeout_dally_handler : Completion → Operation E D → Operation E D
  timeout_dally_handler operation_aborted s = s
  timeout_dally_handler failure s = finished communication_error none s
  timeout_dally_handler success s = finished successful none s

-- The status that `errorPacket` finishes with, by the packet sent last and the error code.
unfoldable pub error_status : PacketType → ℕ → TransferStatus
error_status PacketType.read_request code =
    if code == ErrorCode.tftp_option_refused then option_negotiation_error else request_error
error_status PacketType.write_request code =
    if code == ErrorCode.tftp_option_refused then option_negotiation_error else request_error
error_status _ code = transfer_error

module _ (raw : RawData) {E D : Type 0} (derived_finished : D → D) where
  -- What `sendFirst` and `send` do before they call the socket.
  unfoldable pub prepare : Packet → Operation E D → Operation E D
  prepare p s = record s {
    transmit_counter = 1;
    transmit_packet = encode raw p;
    transmit_statistic = Statistic.packet (kind p) (length (encode raw p)) s.transmit_statistic;
  }

  -- `sendFirst`.
  unfoldable pub send_first : Packet → Operation E D → Operation E D
  send_first p s =
      if s.faults 0
      then finished derived_finished communication_error none (prepare p (advance s))
      else log (sent_to s.remote (encode raw p)) (prepare p (advance s))

  -- `send`.
  unfoldable pub send : Packet → Operation E D → Operation E D
  send p s =
      if s.faults 0
      then finished derived_finished communication_error none (prepare p (advance s))
      else log (sent (encode raw p)) (prepare p (advance s))

  -- An error packet is sent, and the operation finishes with its contents.
  unfoldable pub refuse : ℕ → List ℕ → TransferStatus → Operation E D → Operation E D
  refuse code message status s =
      let p : ErrorPacket = record { error_code = code; error_message = message } in
      finished derived_finished status (error_information p) (send (Packet.error p) s)

  -- `readRequestPacket`, `writeRequestPacket` and `invalidPacket`.
  unfoldable pub read_request_packet : E → RequestPacket → Operation E D → Operation E D
  read_request_packet remote p s =
      refuse ErrorCode.illegal_tftp_operation (text "RRQ not expected") transfer_error s

  unfoldable pub write_request_packet : E → RequestPacket → Operation E D → Operation E D
  write_request_packet remote p s =
      refuse ErrorCode.illegal_tftp_operation (text "WRQ not expected") transfer_error s

  unfoldable pub invalid_packet : E → List ℕ → Operation E D → Operation E D
  invalid_packet remote packet s =
      refuse ErrorCode.illegal_tftp_operation (text "Invalid packet isn't expected") transfer_error
        s

  -- `errorPacket`.
  unfoldable pub error_packet : E → ErrorPacket → Operation E D → Operation E D
  error_packet remote p s =
      finished derived_finished (error_status (packet_type raw s.transmit_packet) p.error_code)
        (error_information p) s
