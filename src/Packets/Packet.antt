-- ===== src/Packets/Packet.antt =====
-- lib/tftp/packets/Packet.cpp, the class with its subclasses: a packet of any type, and the virtual
-- functions that its senders call.
use tftp_senior_design.Base.{ℕ, List, [], ◌≡◌, ◌≢◌}
use tftp_senior_design.Text.{IsNulFree}
use tftp_senior_design.Helper.{RawData, IsU16}
use tftp_senior_design.Packets.{PacketType}
use tftp_senior_design.Packets.Header
use tftp_senior_design.Packets.Header.{packet_type}
use tftp_senior_design.Packets.Acknowledgement
use tftp_senior_design.Packets.Acknowledgement.{AcknowledgementPacket}
use tftp_senior_design.Packets.DataBlock
use tftp_senior_design.Packets.DataBlock.{DataPacket}
use tftp_senior_design.Packets.ErrorMessage
use tftp_senior_design.Packets.ErrorMessage.{ErrorPacket}
use tftp_senior_design.Packets.OptionMap.{IsSorted}
use tftp_senior_design.Packets.Options.RoundTrip.{AreNulFree}
use tftp_senior_design.Packets.OptionsAcknowledgement
use tftp_senior_design.Packets.OptionsAcknowledgement.{OptionsAcknowledgementPacket}
use tftp_senior_design.Packets.Request
use tftp_senior_design.Packets.Request.{RequestPacket}

pub data Packet : Type 0 where
  read_request write_request : RequestPacket → Packet
  data_block : DataPacket → Packet
  acknowledgement : AcknowledgementPacket → Packet
  error : ErrorPacket → Packet
  options_acknowledgement : OptionsAcknowledgementPacket → Packet

-- `Packet::packetType` of an object.
unfoldable pub kind : Packet → PacketType
kind (read_request p) = PacketType.read_request
kind (write_request p) = PacketType.write_request
kind (data_block p) = PacketType.data_block
kind (acknowledgement p) = PacketType.acknowledgement
kind (error p) = PacketType.error
kind (options_acknowledgement p) = PacketType.options_acknowledgement

-- `Packet::operator Helper::RawData`, which calls the virtual `encode`.
unfoldable pub encode : RawData → Packet → List ℕ
encode raw (read_request p) = Request.encode raw PacketType.read_request p
encode raw (write_request p) = Request.encode raw PacketType.write_request p
encode raw (data_block p) = DataBlock.encode raw p
encode raw (acknowledgement p) = Acknowledgement.encode raw p
encode raw (error p) = ErrorMessage.encode raw p
encode raw (options_acknowledgement p) = OptionsAcknowledgement.encode raw p

-- The packets that are read back as they were written.
abbrev pub IsWritable : Packet → Type 0
IsWritable (read_request p) = IsNulFree p.filename × IsSorted p.options × AreNulFree p.options
IsWritable (write_request p) = IsNulFree p.filename × IsSorted p.options × AreNulFree p.options
IsWritable (data_block p) = IsU16 p.block_number
IsWritable (acknowledgement p) = IsU16 p.block_number
IsWritable (error p) = IsU16 p.error_code
IsWritable (options_acknowledgement p) =
    (p.options ≢ []) × IsSorted p.options × AreNulFree p.options

-- A written packet shows its type.
pub packet_type-encode :
    (raw : RawData) (p : Packet) → IsWritable p → packet_type raw (encode raw p) ≡ kind p
unfolding encode kind
packet_type-encode raw (read_request p) w =
    rw (Request.encode_lem raw PacketType.read_request p)
      (Header.packet_type_lem raw PacketType.read_request (λ e. cc) _)
packet_type-encode raw (write_request p) w =
    rw (Request.encode_lem raw PacketType.write_request p)
      (Header.packet_type_lem raw PacketType.write_request (λ e. cc) _)
packet_type-encode raw (data_block p) w =
    rw (DataBlock.encode_lem raw p w) (Header.packet_type_lem raw PacketType.data_block (λ e. cc) _)
packet_type-encode raw (acknowledgement p) w =
    rw (Acknowledgement.encode_lem raw p w)
      (Header.packet_type_lem raw PacketType.acknowledgement (λ e. cc) _)
packet_type-encode raw (error p) w =
    rw (ErrorMessage.encode_lem raw p w) (Header.packet_type_lem raw PacketType.error (λ e. cc) _)
packet_type-encode raw (options_acknowledgement p) w =
    rw (OptionsAcknowledgement.encode_lem raw p)
      (Header.packet_type_lem raw PacketType.options_acknowledgement (λ e. cc) _)
