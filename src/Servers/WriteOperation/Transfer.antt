-- ===== src/Servers/WriteOperation/Transfer.antt =====
-- lib/tftp/servers/implementation/WriteOperationImpl.cpp: dataPacket and acknowledgementPacket.
use tftp_senior_design.Base.{ℕ, none, List, ltb, length, if◌then◌else◌}
use tftp_senior_design.Text.{text}
use tftp_senior_design.Tftp.{ReceiveDataHandler, successful, transfer_error}
use tftp_senior_design.Helper.{RawData}
use tftp_senior_design.Packets.ErrorCode
use tftp_senior_design.Packets.BlockNumber.{next, increment, equal, differ}
use tftp_senior_design.Packets.Acknowledgement.{AcknowledgementPacket}
use tftp_senior_design.Packets.DataBlock.{DataPacket}
use tftp_senior_design.Packets.Packet.{Packet}
use tftp_senior_design.Servers.Operation.{Operation}
use tftp_senior_design.Servers.Operation
use tftp_senior_design.Servers.WriteOperation.{State, update, derived_finished}

abbrev pub ack : ℕ → Packet
ack n = Packet.acknowledgement (record { block_number = n })

module _ (raw : RawData) {E H : Type 0} (h : ReceiveDataHandler H) where
  abbrev pub refuse_illegal : List ℕ → State E H → State E H
  refuse_illegal message s =
      Operation.refuse raw (derived_finished h) ErrorCode.illegal_tftp_operation message
        transfer_error s

  -- After an acknowledgement: a short block is the last one.
  unfoldable pub after_ack : ℕ → State E H → State E H
  after_ack size s =
      if ltb size s.derived.receive_data_size
      then (if s.derived.dally
          then Operation.receive_dally (derived_finished h) s
          else Operation.finished (derived_finished h) successful none s)
      else Operation.receive (derived_finished h) s

  -- A block is passed on and acknowledged.
  unfoldable pub accept_block : DataPacket → State E H → State E H
  accept_block p s =
      let last = increment s.derived.last_received_block_number in
      let stored =
        update
          (λ d. record d {
            handler = h.received_data d.handler p.contents;
            last_received_block_number = last;
          })
          s in
      after_ack (length p.contents) (Operation.send raw (derived_finished h) (ack last) stored)

  -- `dataPacket`.
  unfoldable pub data_packet : E → DataPacket → State E H → State E H
  data_packet remote p s =
      let last = s.derived.last_received_block_number in
      if equal p.block_number last
      then after_ack (length p.contents) (Operation.send raw (derived_finished h) (ack last) s)
      else if differ p.block_number (next last)
      then refuse_illegal (text "Block Number not expected") s
      else if ltb s.derived.receive_data_size (length p.contents)
      then refuse_illegal (text "Too much data") s
      else accept_block p s

  -- `acknowledgementPacket`.
  unfoldable pub acknowledgement_packet : E → AcknowledgementPacket → State E H → State E H
  acknowledgement_packet remote p s = refuse_illegal (text "ACK not expected") s
