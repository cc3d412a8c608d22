-- ===== src/Servers/ReadOperation.antt =====
-- lib/tftp/servers/implementation/ReadOperationImpl.cpp: the server's read operation, which sends a
-- file. It is set up here; the data handler is present.
pub mod Transfer
pub mod Start
pub mod Run
use tftp_senior_design.Base.{ℕ, Bool, false, none, []}
use tftp_senior_design.Text.{text}
use tftp_senior_design.Tftp.{
  TftpOptionsConfiguration, TransmitDataHandler, default_options_configuration,
}
use tftp_senior_design.Network.{Network}
use tftp_senior_design.Helper.{RawData}
use tftp_senior_design.Packets.{
  default_data_size, default_tftp_data_packet_header_size, transfer_size,
}
use tftp_senior_design.Packets.ErrorCode
use tftp_senior_design.Packets.BlockNumber.{next, increment, equal, differ}
use tftp_senior_design.Packets.Acknowledgement.{AcknowledgementPacket}
use tftp_senior_design.Packets.DataBlock.{DataPacket}
use tftp_senior_design.Packets.OptionMap.{Options, is_empty}
use tftp_senior_design.Packets.Packet.{Packet}
use tftp_senior_design.Packets.TftpOptions.{TftpOptions, is_set}
use tftp_senior_design.Clients.RequestOptions.{add_number}
use tftp_senior_design.Servers.Negotiation.{agreed_block_size, agreed_timeout, answered}
use tftp_senior_design.Servers.Operation.{Operation}
use tftp_senior_design.Servers.Operation

-- The members that the class adds, and the data handler.
pub record ReadPart (H : Type 0) : Type 0 where
  pub options_configuration : TftpOptionsConfiguration
  pub handler : H
  pub client_options : TftpOptions
  pub additional_negotiated_options : Options
  pub transmit_data_size : ℕ
  pub last_data_packet_transmitted : Bool
  pub last_transmitted_block_number : ℕ
  pub last_received_block_number : ℕ

abbrev pub State : Type 0 → Type 0 → Type 0
State E H = Operation E (ReadPart H)

-- The constructor; the data handler is set before the start.
unfoldable pub create : {E H : Type 0} → Network E → (ℕ → Bool) → H → State E H
create net faults a = Operation.create net faults (record {
  options_configuration = default_options_configuration;
  handler = a;
  client_options = record {
    client_block_size = none;
    client_timeout = none;
    client_transfer_size = none;
  };
  additional_negotiated_options = [];
  transmit_data_size = default_data_size;
  last_data_packet_transmitted = false;
  last_transmitted_block_number = 0;
  last_received_block_number = 0;
})

module _ {E H : Type 0} where
  -- A change of the derived members.
  abbrev pub update : (ReadPart H → ReadPart H) → State E H → State E H
  update f s = record s { derived = f s.derived }

  -- `optionsConfiguration`, `clientOptions` and `additionalNegotiatedOptions`.
  unfoldable pub set_options_configuration : TftpOptionsConfiguration → State E H → State E H
  set_options_configuration c s = update (λ d. record d { options_configuration = c }) s

  unfoldable pub set_client_options : TftpOptions → State E H → State E H
  set_client_options o s = update (λ d. record d { client_options = o }) s

  unfoldable pub set_additional_negotiated_options : Options → State E H → State E H
  set_additional_negotiated_options m s =
      update (λ d. record d { additional_negotiated_options = m }) s

-- The derived part of `finished`.
abbrev pub derived_finished : {H : Type 0} → TransmitDataHandler H → ReadPart H → ReadPart H
derived_finished h d = record d { handler = h.finished d.handler }
