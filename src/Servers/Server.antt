-- ===== src/Servers/Server.antt =====
-- lib/tftp/servers/implementation/ServerImpl.cpp: the server receives requests, and hands them to the
-- request handler of its user. `E` is the type of endpoints.
pub mod Run
pub mod Setup
pub mod Decoding
pub mod Serving
pub mod Requests
use tftp_senior_design.Base.{
  ℕ, suc, Bool, true, false, Option, none, some, List, length, ◌-◌, ◌∷◌, if◌then◌else◌,
}
use tftp_senior_design.Text.{text}
use tftp_senior_design.Text.Number.{u64_mod}
use tftp_senior_design.Tftp.{RequestType, read, write, TftpOptionsConfiguration}
use tftp_senior_design.Network.{Network}
use tftp_senior_design.Helper.{RawData}
use tftp_senior_design.Packets.{
  TransferMode, block_size, timeout, transfer_size, block_size_option_min, block_size_option_max,
  timeout_option_min, timeout_option_max,
}
use tftp_senior_design.Packets.ErrorCode
use tftp_senior_design.Packets.Acknowledgement.{AcknowledgementPacket}
use tftp_senior_design.Packets.DataBlock.{DataPacket}
use tftp_senior_design.Packets.ErrorMessage.{ErrorPacket}
use tftp_senior_design.Packets.OptionMap.{Options, erase}
use tftp_senior_design.Packets.Options.{name, get_option}
use tftp_senior_design.Packets.OptionsAcknowledgement.{OptionsAcknowledgementPacket}
use tftp_senior_design.Packets.Packet.{Packet, kind, encode}
use tftp_senior_design.Packets.Request.{RequestPacket}
use tftp_senior_design.Packets.Statistic.{Statistic}
use tftp_senior_design.Packets.Statistic
use tftp_senior_design.Packets.TftpOptions.{TftpOptions}
use tftp_senior_design.Servers.Operation
use tftp_senior_design.Servers.ReadOperation
use tftp_senior_design.Servers.WriteOperation

-- The arguments of a `ReceivedTftpRequestHandler`.
pub record Request (E : Type 0) : Type 0 where
  pub remote : E
  pub request_type : RequestType
  pub filename : List ℕ
  pub mode : TransferMode
  pub client_options : TftpOptions
  pub additional_client_options : Options

-- What the server does that can be seen from outside: it calls the request handler, or sends an
-- error packet from a socket of its own, which is bound to a local endpoint if one is given.
pub data ServerEvent (E : Type 0) : Type 0 where
  handed : Request E → ServerEvent E
  answered : Option E → E → List ℕ → ServerEvent E

-- `receive_packet_size` is the size of the buffer `receivePacketV`. `receiving` says whether
-- `receiveHandler` is registered, and `escaped` whether an exception has left a function that was
-- called from outside. `receive_faults` says which of the calls that start a reception throw, and
-- `faults` which of those that open, bind and connect a socket or send an error. A local address is
-- an endpoint with port 0.
pub record Server (E : Type 0) : Type 0 where
  pub has_request_handler : Bool
  pub server_address : E
  pub tftp_timeout_default : Option ℕ
  pub tftp_retries_default : Option ℕ
  pub dally_default : Option Bool
  pub options_configuration_default : Option TftpOptionsConfiguration
  pub local_default : E
  pub transmit_statistic : Statistic
  pub receive_statistic : Statistic
  pub receive_packet_size : ℕ
  pub receiving : Bool
  pub escaped : Bool
  pub receive_faults : ℕ → Bool
  pub faults : ℕ → Bool
  pub trace : List (ServerEvent E)

-- `tftpOptions`: the known options decoded, and the others.
unfoldable pub tftp_options : Options → TftpOptions × Options
tftp_options m =
    let (size, m1) =
      get_option 16 block_size_option_min block_size_option_max (name block_size) m in
    let (seconds, m2) =
      get_option 8 timeout_option_min timeout_option_max (name timeout)
        (erase (name block_size) m1) in
    let (total, m3) =
      get_option 64 0 (u64_mod - 1) (name transfer_size) (erase (name timeout) m2) in
    (
      record {
        client_block_size = size.value;
        client_timeout = seconds.value;
        client_transfer_size = total.value;
      },
      erase (name transfer_size) m3,
    )

module _ {E : Type 0} where
  abbrev pub log : ServerEvent E → Server E → Server E
  log e s = record s { trace = e ∷ s.trace }

  -- The arguments that the handler is called with.
  unfoldable pub request_of : RequestType → E → RequestPacket → Request E
  request_of request_type remote p =
      let (decoded, rest) = tftp_options p.options in
      record {
        remote = remote;
        request_type = request_type;
        filename = p.filename;
        mode = p.mode;
        client_options = decoded;
        additional_client_options = rest;
      }

  -- The call of the request handler; calling an empty std::function throws std::bad_function_call.
  unfoldable pub call_request_handler : Request E → Server E → Server E
  call_request_handler r s =
      if s.has_request_handler then log (handed r) s else record s { escaped = true }

  -- `receive`; what it throws is not caught.
  unfoldable pub receive : Server E → Server E
  receive s =
      let later = record s { receive_faults = λ n. s.receive_faults (suc n) } in
      if s.receive_faults 0
      then record later { escaped = true }
      else record later { receiving = true }

  -- `start`.
  unfoldable pub start : Server E → Server E
  start s =
      let later = record s { faults = λ n. s.faults (suc n) } in
      if s.faults 0 then record later { escaped = true } else receive later

  -- `stop`.
  unfoldable pub stop : Server E → Server E
  stop s = record s { receiving = false }

-- The setting of a default, if there is one.
abbrev pub with_default {ℓ κ} : {A : Type ℓ} {S : Type κ} → Option A → (A → S → S) → S → S
with_default none set s = s
with_default (some a) set s = set a s

module _ {E H : Type 0} (net : Network E) (server : Server E) (faults : ℕ → Bool) (a : H) where
  -- `readOperation`.
  unfoldable pub read_operation : ReadOperation.State E H
  read_operation =
      let s1 =
        with_default server.tftp_timeout_default Operation.set_tftp_timeout
          (ReadOperation.create net faults a) in
      let s2 = with_default server.tftp_retries_default Operation.set_tftp_retries s1 in
      let s3 =
        with_default server.options_configuration_default ReadOperation.set_options_configuration
          s2 in
      if net.is_unspecified server.local_default
      then s3
      else Operation.set_local server.local_default s3

  -- `writeOperation`.
  unfoldable pub write_operation : WriteOperation.State E H
  write_operation =
      let s1 =
        with_default server.tftp_timeout_default Operation.set_tftp_timeout
          (WriteOperation.create net faults a) in
      let s2 = with_default server.tftp_retries_default Operation.set_tftp_retries s1 in
      let s3 = with_default server.dally_default WriteOperation.set_dally s2 in
      let s4 =
        with_default server.options_configuration_default WriteOperation.set_options_configuration
          s3 in
      if net.is_unspecified server.local_default
      then s4
      else Operation.set_local server.local_default s4

module _ (raw : RawData) {E : Type 0} where
  -- Both functions `errorOperation`: opening and connecting the socket may throw, and so may sending.
  unfoldable pub error_operation : Option E → E → ℕ → List ℕ → Server E → Server E
  error_operation local remote code message s =
      let p = Packet.error (record { error_code = code; error_message = message }) in
      let later = record s { faults = λ n. s.faults (suc n) } in
      if s.faults 0 then later else record later {
        faults = λ n. s.faults (suc (suc n));
        transmit_statistic = Statistic.packet (kind p) (length (encode raw p)) s.transmit_statistic;
        trace = if s.faults 1 then s.trace else answered local remote (encode raw p) ∷ s.trace;
      }

  abbrev unexpected : E → List ℕ → Server E → Server E
  unexpected remote message s =
      error_operation none remote ErrorCode.illegal_tftp_operation message s

  -- A request is rejected if no handler is set, and the handler is called in any case.
  unfoldable pub handle_request : RequestType → List ℕ → E → RequestPacket → Server E → Server E
  handle_request request_type message remote p s =
      call_request_handler (request_of request_type remote p) (
        if s.has_request_handler
        then s
        else error_operation none remote ErrorCode.file_not_found message s)

  -- `readRequestPacket` and `writeRequestPacket`.
  unfoldable pub read_request_packet : E → RequestPacket → Server E → Server E
  read_request_packet remote p s = handle_request read (text "RRQ packet isn't accepted") remote p s

  unfoldable pub write_request_packet : E → RequestPacket → Server E → Server E
  write_request_packet remote p s = handle_request write (text "WRQ") remote p s

  -- `dataPacket`, `acknowledgementPacket`, `errorPacket`, `optionsAcknowledgementPacket` and
  -- `invalidPacket`.
  unfoldable pub data_packet : E → DataPacket → Server E → Server E
  data_packet remote p s = unexpected remote (text "DATA packet isn't expected") s

  unfoldable pub acknowledgement_packet : E → AcknowledgementPacket → Server E → Server E
  acknowledgement_packet remote p s = unexpected remote (text "ACK packet isn't expected") s

  unfoldable pub error_packet : E → ErrorPacket → Server E → Server E
  error_packet remote p s = unexpected remote (text "ERR packet isn't expected") s

  unfoldable pub options_acknowledgement_packet :
      E → OptionsAcknowledgementPacket → Server E → Server E
  options_acknowledgement_packet remote p s =
      unexpected remote (text "OACK packet isn't expected") s

  unfoldable pub invalid_packet : E → List ℕ → Server E → Server E
  invalid_packet remote packet s = s
