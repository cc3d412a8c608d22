-- ===== src/Packets.antt =====
-- lib/tftp/packets: the constants and enumerations of Packets.hpp, and the packet exception.
pub mod BlockNumber
pub mod ErrorCode
pub mod OptionMap
pub mod Options
pub mod OptionsAcknowledgement
pub mod Request
pub mod Packet
pub mod Statistic
pub mod Handler
pub mod Header
pub mod Acknowledgement
pub mod DataBlock
pub mod ErrorMessage
pub mod TftpOptions
use tftp_senior_design.Base.{ℕ, refl, ◌+◌, ◌≡◌}

pub data PacketType : Type 0 where
  read_request write_request data_block acknowledgement error options_acknowledgement invalid :
      PacketType

-- `std::to_underlying`.
abbrev pub opcode : PacketType → ℕ
opcode PacketType.read_request = 1
opcode PacketType.write_request = 2
opcode PacketType.data_block = 3
opcode PacketType.acknowledgement = 4
opcode PacketType.error = 5
opcode PacketType.options_acknowledgement = 6
opcode PacketType.invalid = 0xff

abbrev pub default_data_size : ℕ
default_data_size = 512

abbrev pub default_tftp_data_packet_header_size : ℕ
default_tftp_data_packet_header_size = 4

abbrev pub default_max_packet_size : ℕ
default_max_packet_size = default_data_size + default_tftp_data_packet_header_size

pub data TransferMode : Type 0 where
  octet netascii mail invalid : TransferMode

pub data KnownOption : Type 0 where
  block_size timeout transfer_size : KnownOption

abbrev pub block_size_option_min : ℕ
block_size_option_min = 8

abbrev pub block_size_option_max : ℕ
block_size_option_max = 65464

abbrev pub timeout_option_min : ℕ
timeout_option_min = 1

abbrev pub timeout_option_max : ℕ
timeout_option_max = 255

-- InvalidPacketException, by the text that it carries.
pub data Exception : Type 0 where
  header_size invalid_opcode ack_size data_size error_size error_termination oack_size : Exception
  request_size request_termination filename_termination mode_termination options_end packet_type :
      Exception

-- A value, or the exception that is thrown.
pub data Result {ℓ} (A : Type ℓ) : Type ℓ where
  ok : A → Result A
  err : Exception → Result A

-- What follows is skipped by an exception.
infixl 5 ◌>>◌
infixl 5 ◌>>=◌
abbrev pub ◌>>=◌ {ℓ κ} :
    {Value : Type ℓ} {Next : Type κ} → Result Value → (Value → Result Next) → Result Next
result >>= follow = elim result [ err thrown ↦ err thrown | ok value ↦ follow value ]

abbrev pub ◌>>◌ {κ} : {Next : Type κ} → Result (Unit {0}) → Result Next → Result Next
check >> rest = check >>= (λ passed. rest)

-- A sequence succeeds only if both parts do.
pub >>-eq-ok {ℓ} :
    {A : Type ℓ} (m : Result (Unit {0})) (k : Result A) {a : A}
    → (m >> k) ≡ ok a
    → (m ≡ ok tt) × (k ≡ ok a)
>>-eq-ok (ok tt) k h = (refl, h)
>>-eq-ok (err e) k h = cc
