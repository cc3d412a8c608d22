-- ===== src/Clients/WriteOperation/Transfer.antt =====
-- lib/tftp/clients/implementation/WriteOperationImpl.cpp: sendData, dataPacket and
-- acknowledgementPacket.
use tftp_senior_design.Base.{ℕ, none, some, List, [], ltb, length, ◌||◌, if◌then◌else◌}
use tftp_senior_design.Text.{text}
use tftp_senior_design.Tftp.{TransmitDataHandler, successful, transfer_error}
use tftp_senior_design.Helper.{RawData}
use tftp_senior_design.Packets.ErrorCode
use tftp_senior_design.Packets.BlockNumber.{increment, equal, differ}
use tftp_senior_design.Packets.Acknowledgement.{AcknowledgementPacket}
use tftp_senior_design.Packets.DataBlock.{DataPacket}
use tftp_senior_design.Packets.Packet.{Packet}
use tftp_senior_design.Clients.Operation
use tftp_senior_design.Clients.WriteOperation.{State, update, derived_finished}

module _ (raw : RawData) {E H : Type 0} (h : TransmitDataHandler H) where
  abbrev pub refuse_illegal : List ℕ → State E H → State E H
  refuse_illegal message s =
      Operation.refuse raw (derived_finished h) ErrorCode.illegal_tftp_operation message
        transfer_error s

  -- The block that `sendData` sends next, and the members after it was taken.
  unfoldable pub next_block : State E H → DataPacket × State E H
  next_block s =
      let number = increment s.derived.last_transmitted_block_number in
      let (contents, handler) = h.send_data s.derived.handler s.derived.transmit_data_size in
      let d = s.derived in
      (
        record { block_number = number; contents = contents },
        record s {
          derived = record d {
            handler = handler;
            last_transmitted_block_number = number;
            last_data_packet_transmitted =
                ltb (length contents) s.derived.transmit_data_size
                || s.derived.last_data_packet_transmitted;
          };
        },
      )

  -- `sendData`.
  unfoldable pub send_data : State E H → State E H
  send_data s =
      let (block, taken) = next_block s in
      Operation.send raw (derived_finished h) (Packet.data_block block) taken

  -- `dataPacket`.
  unfoldable pub data_packet : E → DataPacket → State E H → State E H
  data_packet remote p s = refuse_illegal (text "DATA not expected") s

  -- The last block was acknowledged, or the next one is sent.
  unfoldable pub continue_transfer : State E H → State E H
  continue_transfer s =
      if s.derived.last_data_packet_transmitted
      then Operation.finished (derived_finished h) successful none s
      else Operation.receive (derived_finished h) (send_data s)

  -- The negotiation handler is called with no options on the acknowledgement of block 0.
  unfoldable pub acknowledged : AcknowledgementPacket → State E H → State E H
  acknowledged p s =
      if equal p.block_number 0
      then (elim s.derived.option_negotiation_handler [
        | none ↦ continue_transfer s
        | some f ↦
            if (f []).0
            then continue_transfer s
            else Operation.refuse raw (derived_finished h) ErrorCode.tftp_option_refused
                (text "Option Negotiation Failed") transfer_error s
      ])
      else continue_transfer s

  -- `acknowledgementPacket`.
  unfoldable pub acknowledgement_packet : E → AcknowledgementPacket → State E H → State E H
  acknowledgement_packet remote p s =
      if equal p.block_number s.derived.last_received_block_number
      then Operation.receive (derived_finished h) s
      else if differ p.block_number s.derived.last_transmitted_block_number
      then refuse_illegal (text "Wrong block number") s
      else acknowledged p (update (λ d. record d { last_received_block_number = p.block_number }) s)
