-- ===== src/Clients/WriteOperation/Negotiation.antt =====
-- lib/tftp/clients/implementation/WriteOperationImpl.cpp: optionsAcknowledgementPacket, one function
-- for each option.
use tftp_senior_design.Base.{
  ℕ, not, none, some, List, ltb, has_value, ◌-◌, ◌&&◌, ◌==◌, if◌then◌else◌,
}
use tftp_senior_design.Text.{text}
use tftp_senior_design.Text.Number.{u64_mod}
use tftp_senior_design.Tftp.{TransmitDataHandler, transfer_error, option_negotiation_error}
use tftp_senior_design.Helper.{RawData}
use tftp_senior_design.Packets.{
  block_size, timeout, transfer_size, block_size_option_min, block_size_option_max,
  timeout_option_min, timeout_option_max,
}
use tftp_senior_design.Packets.ErrorCode
use tftp_senior_design.Packets.BlockNumber.{differ}
use tftp_senior_design.Packets.OptionMap.{Options, is_empty}
use tftp_senior_design.Packets.Options.{name, get_option}
use tftp_senior_design.Packets.OptionsAcknowledgement.{OptionsAcknowledgementPacket}
use tftp_senior_design.Clients.Operation
use tftp_senior_design.Clients.RequestOptions.{deref}
use tftp_senior_design.Clients.WriteOperation.{State, update, derived_finished}
use tftp_senior_design.Clients.WriteOperation.Transfer.{send_data}

module _ (raw : RawData) {E H : Type 0} (h : TransmitDataHandler H) where
  abbrev pub refuse_options : ℕ → List ℕ → State E H → State E H
  refuse_options code message s =
      Operation.refuse raw (derived_finished h) code message option_negotiation_error s

  -- The OACK is accepted: the first block is sent.
  unfoldable pub accept_options : State E H → State E H
  accept_options s = Operation.receive (derived_finished h) (send_data raw h s)

  unfoldable pub check_remaining : Options → State E H → State E H
  check_remaining options s =
      if is_empty options
      then accept_options s
      else refuse_options ErrorCode.tftp_option_refused (text "Unexpected options") s

  unfoldable pub negotiate_additional : Options → State E H → State E H
  negotiate_additional options s = elim s.derived.option_negotiation_handler [
    | none ↦ check_remaining options s
    | some f ↦
        if (f options).0
        then check_remaining (f options).1 s
        else refuse_options ErrorCode.tftp_option_refused (text "Option negotiation failed") s
  ]

  unfoldable pub negotiate_transfer_size : Options → State E H → State E H
  negotiate_transfer_size options s =
      let (size, rest) = get_option 64 0 (u64_mod - 1) (name transfer_size) options in
      let expected =
        s.derived.options_configuration.handle_transfer_size_option
        && has_value s.derived.transfer_size in
      if not expected && has_value size.value
      then refuse_options ErrorCode.tftp_option_refused (text "Transfer Size Option isn't expected")
          s
      else if not size.valid
      then refuse_options ErrorCode.tftp_option_refused
          (text "Transfer Size Option decoding failed") s
      else if has_value size.value && not (deref size.value == deref s.derived.transfer_size)
      then refuse_options ErrorCode.tftp_option_refused (text "transfer size invalid") s
      else negotiate_additional rest s

  unfoldable pub negotiate_timeout : Options → State E H → State E H
  negotiate_timeout options s =
      let (seconds, rest) =
        get_option 8 timeout_option_min timeout_option_max (name timeout) options in
      let requested = s.derived.options_configuration.timeout_option in
      if not (has_value requested) && has_value seconds.value
      then refuse_options ErrorCode.tftp_option_refused (text "Timeout Option isn't expected") s
      else if not seconds.valid
      then refuse_options ErrorCode.tftp_option_refused (text "Timeout Option decoding failed") s
      else (elim seconds.value [
        | none ↦ negotiate_transfer_size rest s
        | some n ↦
            if n == deref requested
            then negotiate_transfer_size rest (record s { receive_timeout = n })
            else refuse_options ErrorCode.tftp_option_refused
                (text "Timeout option not equal to requested") s
      ])

  unfoldable pub negotiate_block_size : Options → State E H → State E H
  negotiate_block_size options s =
      let (size, rest) =
        get_option 16 block_size_option_min block_size_option_max (name block_size) options in
      let requested = s.derived.options_configuration.block_size_option in
      if not (has_value requested) && has_value size.value
      then refuse_options ErrorCode.tftp_option_refused (text "Block Size Option not expected") s
      else if not size.valid
      then refuse_options ErrorCode.tftp_option_refused (text "Block Size Option decoding failed") s
      else (elim size.value [
        | none ↦ negotiate_timeout rest s
        | some n ↦
            if ltb (deref requested) n
            then refuse_options ErrorCode.tftp_option_refused
                (text "Block size Option negotiation failed") s
            else negotiate_timeout rest (update (λ d. record d { transmit_data_size = n }) s)
      ])

  -- `optionsAcknowledgementPacket`.
  unfoldable pub options_acknowledgement_packet :
      E → OptionsAcknowledgementPacket → State E H → State E H
  options_acknowledgement_packet remote p s =
      if differ s.derived.last_received_block_number 0xffff
      then Operation.refuse raw (derived_finished h) ErrorCode.illegal_tftp_operation
          (text "OACK must occur after WRQ") transfer_error s
      else if is_empty p.options
      then Operation.refuse raw (derived_finished h) ErrorCode.illegal_tftp_operation
          (text "Empty OACK not allowed") transfer_error s
      else negotiate_block_size p.options s
