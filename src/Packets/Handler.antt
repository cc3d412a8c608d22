-- ===== src/Packets/Handler.antt =====
-- lib/tftp/packets/PacketHandler.cpp: a received packet is decoded and handed to one handler.
use tftp_senior_design.Base.{ℕ, List, length, ◌≡◌}
use tftp_senior_design.Helper.{RawData}
use tftp_senior_design.Packets.{PacketType, Result, ok, err}
use tftp_senior_design.Packets.Header.{packet_type}
use tftp_senior_design.Packets.Packet.{Packet, kind, encode, IsWritable, packet_type-encode}
use tftp_senior_design.Packets.Acknowledgement
use tftp_senior_design.Packets.Acknowledgement.{AcknowledgementPacket}
use tftp_senior_design.Packets.DataBlock
use tftp_senior_design.Packets.DataBlock.{DataPacket}
use tftp_senior_design.Packets.ErrorMessage
use tftp_senior_design.Packets.ErrorMessage.{ErrorPacket}
use tftp_senior_design.Packets.OptionsAcknowledgement
use tftp_senior_design.Packets.OptionsAcknowledgement.{OptionsAcknowledgementPacket}
use tftp_senior_design.Packets.Request
use tftp_senior_design.Packets.Request.{RequestPacket}

-- The virtual functions of the class over the state `S` of the object, and the update of the
-- global receive statistic. `E` is the type of endpoints.
pub record Handlers (E S : Type 0) : Type 0 where
  pub read_request_packet : E → RequestPacket → S → S
  pub write_request_packet : E → RequestPacket → S → S
  pub data_packet : E → DataPacket → S → S
  pub acknowledgement_packet : E → AcknowledgementPacket → S → S
  pub error_packet : E → ErrorPacket → S → S
  pub options_acknowledgement_packet : E → OptionsAcknowledgementPacket → S → S
  pub invalid_packet : E → List ℕ → S → S
  pub count : PacketType → ℕ → S → S

module _ (raw : RawData) {E S : Type 0} (h : Handlers E S) where
  -- One case of the switch: the handler and then the statistic, or the `catch`.
  abbrev pub handle {ℓ} :
      {A : Type ℓ} → E → List ℕ → PacketType → (E → A → S → S) → Result A → S → S
  handle remote bytes t act (ok p) s = h.count t (length bytes) (act remote p s)
  handle remote bytes t act (err e) s =
      h.invalid_packet remote bytes (h.count PacketType.invalid (length bytes) s)

  -- `PacketHandler::packet`.
  unfoldable pub packet : E → List ℕ → S → S
  packet remote bytes s = elim (packet_type raw bytes) [
    | PacketType.read_request ↦
        handle remote bytes PacketType.read_request h.read_request_packet
          (Request.decode raw PacketType.read_request bytes) s
    | PacketType.write_request ↦
        handle remote bytes PacketType.write_request h.write_request_packet
          (Request.decode raw PacketType.write_request bytes) s
    | PacketType.data_block ↦
        handle remote bytes PacketType.data_block h.data_packet (DataBlock.decode raw bytes) s
    | PacketType.acknowledgement ↦
        handle remote bytes PacketType.acknowledgement h.acknowledgement_packet
          (Acknowledgement.decode raw bytes) s
    | PacketType.error ↦
        handle remote bytes PacketType.error h.error_packet (ErrorMessage.decode raw bytes) s
    | PacketType.options_acknowledgement ↦
        handle remote bytes PacketType.options_acknowledgement h.options_acknowledgement_packet
          (OptionsAcknowledgement.decode raw bytes) s
    | PacketType.invalid ↦
        h.invalid_packet remote bytes (h.count PacketType.invalid (length bytes) s)
  ]

  -- The handler of a packet.
  abbrev pub dispatch : E → Packet → S → S
  dispatch remote (Packet.read_request p) s = h.read_request_packet remote p s
  dispatch remote (Packet.write_request p) s = h.write_request_packet remote p s
  dispatch remote (Packet.data_block p) s = h.data_packet remote p s
  dispatch remote (Packet.acknowledgement p) s = h.acknowledgement_packet remote p s
  dispatch remote (Packet.error p) s = h.error_packet remote p s
  dispatch remote (Packet.options_acknowledgement p) s = h.options_acknowledgement_packet remote p s

  -- A packet that was written reaches the handler of its own class with the values that it was
  -- written with, and is then counted once, under its own type and with its whole size. Its numbers
  -- have 16 bits, its options are a map, at least one in an options acknowledgement, and its file
  -- name, option names and option values are free of the character 0.
  pub packet-encode :
      (remote : E) (p : Packet) (s : S)
      → IsWritable p
      → packet remote (encode raw p) s
        ≡ h.count (kind p) (length (encode raw p)) (dispatch remote p s)
  unfolding packet encode kind
  packet-encode remote (Packet.read_request p) s w =
      rw (packet_type-encode raw (Packet.read_request p) w, packet)
        (rw (
          Request.decode-encode_request raw PacketType.read_request Request.check_type_read p w.0
            w.1 w.2))
  packet-encode remote (Packet.write_request p) s w =
      rw (packet_type-encode raw (Packet.write_request p) w, packet)
        (rw (
          Request.decode-encode_request raw PacketType.write_request Request.check_type_write p w.0
            w.1 w.2))
  packet-encode remote (Packet.data_block p) s w =
      rw (packet_type-encode raw (Packet.data_block p) w, packet)
        (rw (DataBlock.decode-encode raw p w))
  packet-encode remote (Packet.acknowledgement p) s w =
      rw (packet_type-encode raw (Packet.acknowledgement p) w, packet)
        (rw (Acknowledgement.decode-encode raw p w))
  packet-encode remote (Packet.error p) s w =
      rw (packet_type-encode raw (Packet.error p) w, packet)
        (rw (ErrorMessage.decode-encode raw p w))
  packet-encode remote (Packet.options_acknowledgement p) s w =
      rw (packet_type-encode raw (Packet.options_acknowledgement p) w, packet)
        (rw (OptionsAcknowledgement.decode-encode_oack raw p w.0 w.1 w.2))
