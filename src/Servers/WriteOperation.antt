-- ===== src/Servers/WriteOperation.antt =====
-- lib/tftp/servers/implementation/WriteOperationImpl.cpp: the server's write operation, which receives
-- a file. It is set up here; the data handler is present.
pub mod Transfer
pub mod Start
pub mod Run
use tftp_senior_design.Base.{ℕ, max, Bool, false, none, some, [], ◌+◌, ◌%◌}
use tftp_senior_design.Text.{text}
use tftp_senior_design.Tftp.{
  TftpOptionsConfiguration, ReceiveDataHandler, default_options_configuration,
}
use tftp_senior_design.Network.{Network}
use tftp_senior_design.Helper.{RawData}
use tftp_senior_design.Packets.{
  default_data_size, default_tftp_data_packet_header_size, transfer_size,
}
use tftp_senior_design.Packets.ErrorCode
use tftp_senior_design.Packets.BlockNumber.{next, increment, equal, differ}
use tftp_senior_design.Packets.Acknowledgement.{AcknowledgementPacket}
use tftp_senior_design.Packets.DataBlock.{DataPacket}
use tftp_senior_design.Packets.OptionMap.{Options, is_empty}
use tftp_senior_design.Packets.Packet.{Packet}
use tftp_senior_design.Packets.TftpOptions.{TftpOptions, is_set}
use tftp_senior_design.Clients.RequestOptions.{add_number}
use tftp_senior_design.Servers.Negotiation.{agreed_block_size, agreed_timeout, answered}
use tftp_senior_design.Servers.Operation.{Operation}
use tftp_senior_design.Servers.Operation

-- The members that the class adds, and the data handler.
pub record WritePart (H : Type 0) : Type 0 where
  pub dally : Bool
  pub options_configuration : TftpOptionsConfiguration
  pub handler : H
  pub client_options : TftpOptions
  pub additional_negotiated_options : Options
  pub receive_data_size : ℕ
  pub last_received_block_number : ℕ

abbrev pub State : Type 0 → Type 0 → Type 0
State E H = Operation E (WritePart H)

-- The constructor; the data handler is set before the start.
unfoldable pub create : {E H : Type 0} → Network E → (ℕ → Bool) → H → State E H
create net faults a = Operation.create net faults (record {
  dally = false;
  options_configuration = default_options_configuration;
  handler = a;
  client_options = record {
    client_block_size = none;
    client_timeout = none;
    client_transfer_size = none;
  };
  additional_negotiated_options = [];
  receive_data_size = default_data_size;
  last_received_block_number = 0;
})

module _ {E H : Type 0} where
  -- A change of the derived members.
  abbrev pub update : (WritePart H → WritePart H) → State E H → State E H
  update f s = record s { derived = f s.derived }

  -- `dally`, `clientOptions` and `additionalNegotiatedOptions`.
  unfoldable pub set_dally : Bool → State E H → State E H
  set_dally b s = update (λ d. record d { dally = b }) s

  unfoldable pub set_client_options : TftpOptions → State E H → State E H
  set_client_options o s = update (λ d. record d { client_options = o }) s

  unfoldable pub set_additional_negotiated_options : Options → State E H → State E H
  set_additional_negotiated_options m s =
      update (λ d. record d { additional_negotiated_options = m }) s

  -- `optionsConfiguration`, which also resizes the receive buffer.
  unfoldable pub set_options_configuration : TftpOptionsConfiguration → State E H → State E H
  set_options_configuration c s =
      Operation.max_receive_packet_size
        ((default_tftp_data_packet_header_size
            + max default_data_size
                (elim c.block_size_option [ none ↦ default_data_size | some n ↦ n ]))
          % 65536)
        (update (λ d. record d { options_configuration = c }) s)

-- The derived part of `finished`.
abbrev pub derived_finished : {H : Type 0} → ReceiveDataHandler H → WritePart H → WritePart H
derived_finished h d = record d { handler = h.finished d.handler }
