-- ===== src/Servers/ReadOperation/Start.antt =====
-- lib/tftp/servers/implementation/ReadOperationImpl.cpp: start.
use tftp_senior_design.Base.{ℕ, Bool, not, none, some, ◌||◌, ◌==◌, if◌then◌else◌}
use tftp_senior_design.Text.{text}
use tftp_senior_design.Tftp.{TransmitDataHandler, communication_error, transfer_error}
use tftp_senior_design.Helper.{RawData}
use tftp_senior_design.Packets.{transfer_size}
use tftp_senior_design.Packets.ErrorCode
use tftp_senior_design.Packets.OptionMap.{Options, is_empty}
use tftp_senior_design.Packets.Packet.{Packet}
use tftp_senior_design.Packets.TftpOptions.{is_set}
use tftp_senior_design.Clients.RequestOptions.{add_number}
use tftp_senior_design.Servers.Negotiation.{agreed_block_size, agreed_timeout, answered}
use tftp_senior_design.Servers.Operation.{Operation}
use tftp_senior_design.Servers.Operation
use tftp_senior_design.Servers.ReadOperation.{State, update, derived_finished}
use tftp_senior_design.Servers.ReadOperation.Transfer.{send_data}

module _ (raw : RawData) {E H : Type 0} (h : TransmitDataHandler H) where
  -- The block size and the timeout are agreed on.
  unfoldable pub agree : State E H → State E H
  agree s =
      let d = s.derived in
      record s {
        receive_timeout = elim (agreed_timeout d.options_configuration d.client_options) [
          | none ↦ s.receive_timeout
          | some n ↦ n
        ];
        derived = record d {
          transmit_data_size = elim (agreed_block_size d.options_configuration d.client_options) [
            | none ↦ d.transmit_data_size
            | some n ↦ n
          ];
        };
      }

  -- The OACK is sent, or the first block if there is no option to be confirmed.
  unfoldable pub respond : Options → State E H → State E H
  respond m s = Operation.receive (derived_finished h) (
      if is_empty m
      then send_data raw h s
      else Operation.send raw (derived_finished h)
          (Packet.options_acknowledgement (record { options = m }))
          (update (λ d. record d { last_received_block_number = 0xffff }) s))

  -- The transfer size, which the client must ask for by 0.
  unfoldable pub respond_transfer_size : Options → ℕ → State E H → State E H
  respond_transfer_size m asked s =
      if asked == 0
      then (let (size, handler) = h.requested_transfer_size s.derived.handler in
          respond (add_number transfer_size size m)
            (update (λ d. record d { handler = handler }) s))
      else Operation.refuse raw (derived_finished h) ErrorCode.tftp_option_refused
          (text "transfer size must be 0") transfer_error s

  unfoldable pub negotiate : State E H → State E H
  negotiate s =
      let d = s.derived in
      let m = answered d.options_configuration d.client_options d.additional_negotiated_options in
      elim (if d.options_configuration.handle_transfer_size_option
        then d.client_options.client_transfer_size
        else none) [
          | none ↦ respond m (agree s)
          | some asked ↦ respond_transfer_size m asked (agree s)
        ]

  -- What follows the start of the data handler.
  unfoldable pub answer_request : State E H → State E H
  answer_request s =
      if is_set s.derived.client_options || not (is_empty s.derived.additional_negotiated_options)
      then negotiate s
      else Operation.receive (derived_finished h) (send_data raw h s)

  -- `start`. `is_tftp` says whether what the data handler throws is a `TftpException`, which is only
  -- logged; anything else finishes the operation.
  unfoldable pub start : Bool → State E H → State E H
  start is_tftp s =
      let initialised = Operation.initialise (derived_finished h) s in
      let (handler, threw) = h.start initialised.derived.handler in
      let started = update (λ d. record d { handler = handler }) initialised in
      if threw
      then (if is_tftp
          then started
          else Operation.finished (derived_finished h) communication_error none started)
      else answer_request started
