-- ===== src/Clients/WriteOperation.antt =====
-- lib/tftp/clients/implementation/WriteOperationImpl.cpp: the client's write operation. It is set up
-- and started here; the data handler is present.
pub mod Told
pub mod Transfer
pub mod Negotiation
pub mod Run
pub mod Keeps
pub mod Invariant
pub mod Blocks
pub mod Duplicates
use tftp_senior_design.Base.{ℕ, Bool, false, Option, none, List, [], if◌then◌else◌}
use tftp_senior_design.Tftp.{
  TftpOptionsConfiguration, TransmitDataHandler, communication_error, default_options_configuration,
}
use tftp_senior_design.Network.{Network}
use tftp_senior_design.Helper.{RawData}
use tftp_senior_design.Packets.{TransferMode, default_data_size}
use tftp_senior_design.Packets.OptionMap.{Options}
use tftp_senior_design.Packets.Packet.{Packet}
use tftp_senior_design.Clients.Operation.{Operation}
use tftp_senior_design.Clients.Operation
use tftp_senior_design.Clients.Operation.Inputs
use tftp_senior_design.Clients.RequestOptions.{write_options}

-- The members that the class adds, and the data handler.
pub record WritePart (H : Type 0) : Type 0 where
  pub options_configuration : TftpOptionsConfiguration
  pub additional_options : Options
  pub option_negotiation_handler : Option (Options → Bool × Options)
  pub handler : H
  pub filename : List ℕ
  pub mode : TransferMode
  pub transmit_data_size : ℕ
  pub last_data_packet_transmitted : Bool
  pub last_transmitted_block_number : ℕ
  pub last_received_block_number : ℕ
  pub transfer_size : Option ℕ

abbrev pub State : Type 0 → Type 0 → Type 0
State E H = Operation E (WritePart H)

-- The constructor; the data handler is set before a request.
unfoldable pub create : {E H : Type 0} → Network E → (ℕ → Bool) → H → State E H
create net faults a = Operation.create net faults (record {
  options_configuration = default_options_configuration;
  additional_options = [];
  option_negotiation_handler = none;
  handler = a;
  filename = [];
  mode = TransferMode.invalid;
  transmit_data_size = default_data_size;
  last_data_packet_transmitted = false;
  last_transmitted_block_number = 0;
  last_received_block_number = 0;
  transfer_size = none;
})

module _ {E H : Type 0} where
  -- A change of the derived members.
  abbrev pub update : (WritePart H → WritePart H) → State E H → State E H
  update f s = record s { derived = f s.derived }

  -- `optionsConfiguration`, `additionalOptions`, `optionNegotiationHandler`, `filename` and `mode`.
  unfoldable pub set_options_configuration : TftpOptionsConfiguration → State E H → State E H
  set_options_configuration c s = update (λ d. record d { options_configuration = c }) s

  unfoldable pub set_additional_options : Options → State E H → State E H
  set_additional_options m s = update (λ d. record d { additional_options = m }) s

  unfoldable pub set_option_negotiation_handler :
      Option (Options → Bool × Options) → State E H → State E H
  set_option_negotiation_handler f s = update (λ d. record d { option_negotiation_handler = f }) s

  unfoldable pub set_filename : List ℕ → State E H → State E H
  set_filename n s = update (λ d. record d { filename = n }) s

  unfoldable pub set_mode : TransferMode → State E H → State E H
  set_mode m s = update (λ d. record d { mode = m }) s

-- The derived part of `finished`.
abbrev pub derived_finished : {H : Type 0} → TransmitDataHandler H → WritePart H → WritePart H
derived_finished h d = record d { handler = h.finished d.handler }

module _ (raw : RawData) {E H : Type 0} (net : Network E) (h : TransmitDataHandler H) where
  -- The resets of `request`.
  unfoldable pub reset : State E H → State E H
  reset s =
      update
        (λ d. record d {
          transmit_data_size = default_data_size;
          last_data_packet_transmitted = false;
          last_transmitted_block_number = 0;
          last_received_block_number = 0xffff;
        })
        s

  -- The transfer size is asked of the data handler only if the option is configured.
  unfoldable pub ask_transfer_size : State E H → State E H
  ask_transfer_size s =
      if s.derived.options_configuration.handle_transfer_size_option
      then (let (size, handler) = h.requested_transfer_size s.derived.handler in
          update (λ d. record d { handler = handler; transfer_size = size }) s)
      else s

  unfoldable pub send_request : State E H → State E H
  send_request s =
      let d = s.derived in
      let request = Packet.write_request (record {
        filename = d.filename;
        mode = d.mode;
        options = write_options d.options_configuration d.transfer_size d.additional_options;
      }) in
      Operation.receive_first (derived_finished h)
        (Operation.send_first raw (derived_finished h) request s)

  -- `request`. What the data handler throws is caught.
  unfoldable pub request : State E H → State E H
  request s =
      let initialised = Inputs.initialise raw net (derived_finished h) (λ e bytes t. t) s in
      let (handler, threw) = h.start initialised.derived.handler in
      let started = update (λ d. record d { handler = handler }) initialised in
      if threw
      then Operation.finished (derived_finished h) communication_error none started
      else send_request (ask_transfer_size (reset started))
