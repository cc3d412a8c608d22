-- ===== src/Clients/ReadOperation.antt =====
-- lib/tftp/clients/implementation/ReadOperationImpl.cpp: the client's read operation. It is set up
-- and started here; the data handler is present.
pub mod Told
pub mod Transfer
pub mod Negotiation
pub mod Run
pub mod Keeps
pub mod Invariant
pub mod Blocks
pub mod Duplicates
use tftp_senior_design.Base.{
  ℕ, max, Bool, false, Option, none, some, List, [], ◌+◌, ◌%◌, if◌then◌else◌,
}
use tftp_senior_design.Tftp.{
  TftpOptionsConfiguration, ReceiveDataHandler, communication_error, default_options_configuration,
}
use tftp_senior_design.Network.{Network}
use tftp_senior_design.Helper.{RawData}
use tftp_senior_design.Packets.{
  TransferMode, default_data_size, default_tftp_data_packet_header_size,
}
use tftp_senior_design.Packets.OptionMap.{Options}
use tftp_senior_design.Packets.Packet.{Packet}
use tftp_senior_design.Clients.Operation.{Operation}
use tftp_senior_design.Clients.Operation
use tftp_senior_design.Clients.Operation.Inputs
use tftp_senior_design.Clients.RequestOptions.{read_options}

-- The members that the class adds, and the data handler. An `OptionNegotiationHandler` answers
-- whether it accepts, and the options that it leaves.
pub record ReadPart (H : Type 0) : Type 0 where
  pub options_configuration : TftpOptionsConfiguration
  pub additional_options : Options
  pub option_negotiation_handler : Option (Options → Bool × Options)
  pub handler : H
  pub filename : List ℕ
  pub mode : TransferMode
  pub dally : Bool
  pub oack_received : Bool
  pub receive_data_size : ℕ
  pub last_received_block_number : ℕ

abbrev pub State : Type 0 → Type 0 → Type 0
State E H = Operation E (ReadPart H)

-- The constructor; the data handler is set before a request.
unfoldable pub create : {E H : Type 0} → Network E → (ℕ → Bool) → H → State E H
create net faults a = Operation.create net faults (record {
  options_configuration = default_options_configuration;
  additional_options = [];
  option_negotiation_handler = none;
  handler = a;
  filename = [];
  mode = TransferMode.invalid;
  dally = false;
  oack_received = false;
  receive_data_size = default_data_size;
  last_received_block_number = 0;
})

module _ {E H : Type 0} where
  -- A change of the derived members.
  abbrev pub update : (ReadPart H → ReadPart H) → State E H → State E H
  update f s = record s { derived = f s.derived }

  -- `optionsConfiguration`, which also resizes the receive buffer.
  unfoldable pub set_options_configuration : TftpOptionsConfiguration → State E H → State E H
  set_options_configuration c s =
      update (λ d. record d { options_configuration = c })
        (record s {
          receive_packet_size =
              (default_tftp_data_packet_header_size
                + max default_data_size
                    (elim c.block_size_option [ none ↦ default_data_size | some n ↦ n ]))
              % 65536;
        })

  -- `additionalOptions`, `optionNegotiationHandler`, `dally`, `filename` and `mode`.
  unfoldable pub set_additional_options : Options → State E H → State E H
  set_additional_options m s = update (λ d. record d { additional_options = m }) s

  unfoldable pub set_option_negotiation_handler :
      Option (Options → Bool × Options) → State E H → State E H
  set_option_negotiation_handler f s = update (λ d. record d { option_negotiation_handler = f }) s

  unfoldable pub set_dally : Bool → State E H → State E H
  set_dally b s = update (λ d. record d { dally = b }) s

  unfoldable pub set_filename : List ℕ → State E H → State E H
  set_filename n s = update (λ d. record d { filename = n }) s

  unfoldable pub set_mode : TransferMode → State E H → State E H
  set_mode m s = update (λ d. record d { mode = m }) s

-- The derived part of `finished`.
abbrev pub derived_finished : {H : Type 0} → ReceiveDataHandler H → ReadPart H → ReadPart H
derived_finished h d = record d { handler = h.finished d.handler }

module _ (raw : RawData) {E H : Type 0} (net : Network E) (h : ReceiveDataHandler H) where
  -- `request` behind the start of the data handler.
  unfoldable pub send_request : State E H → State E H
  send_request s =
      let reset =
        update
          (λ d. record d { receive_data_size = default_data_size; last_received_block_number = 0 })
          s in
      let request = Packet.read_request (record {
        filename = s.derived.filename;
        mode = s.derived.mode;
        options = read_options s.derived.options_configuration s.derived.additional_options;
      }) in
      Operation.receive_first (derived_finished h)
        (Operation.send_first raw (derived_finished h) request reset)

  -- `request`. What the data handler throws is caught.
  unfoldable pub request : State E H → State E H
  request s =
      let initialised = Inputs.initialise raw net (derived_finished h) (λ e bytes t. t) s in
      let (handler, threw) = h.start initialised.derived.handler in
      let started = update (λ d. record d { handler = handler }) initialised in
      if threw
      then Operation.finished (derived_finished h) communication_error none started
      else send_request started
