-- ===== src/Packets/Header.antt =====
-- lib/tftp/packets/Packet.cpp: the opcode that every packet starts with.
use tftp_senior_design.Base.{
  ℕ, refl, List, [], arith, ltb, le→ltb, length, All, ◌≡◌, ◌≢◌, ◌∷◌, ◌++◌, ◌==◌, if◌then◌else◌,
}
use tftp_senior_design.Helper.{RawData, IsByte}
use tftp_senior_design.Packets.{PacketType, opcode, header_size, invalid_opcode, Result, ok, err}

abbrev pub size : ℕ
size = 2

-- `PacketType{ opcode }` and the switch on it.
unfoldable pub type_of_opcode : ℕ → PacketType
type_of_opcode n =
    if n == 1
    then PacketType.read_request
    else if n == 2
    then PacketType.write_request
    else if n == 3
    then PacketType.data_block
    else if n == 4
    then PacketType.acknowledgement
    else if n == 5
    then PacketType.error
    else if n == 6
    then PacketType.options_acknowledgement
    else PacketType.invalid

opcode-IsByte : (t : PacketType) → IsByte (opcode t)
opcode-IsByte PacketType.read_request = omega arith
opcode-IsByte PacketType.write_request = omega arith
opcode-IsByte PacketType.data_block = omega arith
opcode-IsByte PacketType.acknowledgement = omega arith
opcode-IsByte PacketType.error = omega arith
opcode-IsByte PacketType.options_acknowledgement = omega arith
opcode-IsByte PacketType.invalid = omega arith

module _ (raw : RawData) where
  -- `Packet::packetType`, the static one.
  unfoldable pub packet_type : List ℕ → PacketType
  packet_type packet =
      if ltb (length packet) size then PacketType.invalid else type_of_opcode (raw.get_int packet).1

  -- `Packet::insertHeader`: the packet with its first bytes overwritten.
  unfoldable pub insert_header : PacketType → List ℕ → List ℕ
  insert_header t packet = let (written, rest) = raw.set_int packet (opcode t) in written ++ rest

  -- `Packet::decodeHeader`.
  unfoldable pub decode_header : PacketType → List ℕ → Result (Unit {0})
  decode_header t packet =
      if ltb (length packet) size
      then err header_size
      else if (raw.get_int packet).1 == opcode t
      then ok tt
      else err invalid_opcode

  pub insert_header_lem :
      (t : PacketType) (a b : ℕ) (rest : List ℕ)
      → insert_header t (a ∷ b ∷ rest) ≡ 0 ∷ opcode t ∷ rest
  unfolding insert_header
  insert_header_lem PacketType.read_request a b rest = rw (raw.set_int_lem a b 1 rest (omega arith))
  insert_header_lem PacketType.write_request a b rest =
      rw (raw.set_int_lem a b 2 rest (omega arith))
  insert_header_lem PacketType.data_block a b rest = rw (raw.set_int_lem a b 3 rest (omega arith))
  insert_header_lem PacketType.acknowledgement a b rest =
      rw (raw.set_int_lem a b 4 rest (omega arith))
  insert_header_lem PacketType.error a b rest = rw (raw.set_int_lem a b 5 rest (omega arith))
  insert_header_lem PacketType.options_acknowledgement a b rest =
      rw (raw.set_int_lem a b 6 rest (omega arith))
  insert_header_lem PacketType.invalid a b rest = rw (raw.set_int_lem a b 0xff rest (omega arith))

  pub decode_header_good :
      (t : PacketType) (rest : List ℕ) → decode_header t (0 ∷ opcode t ∷ rest) ≡ ok tt
  unfolding decode_header
  decode_header_good t rest =
      rw (raw.get_int_lem 0 (opcode t) rest (omega arith) (opcode-IsByte t)) (ground arith)

  -- A header that decodes is the opcode, high byte first.
  pub decode_header_ok :
      (t : PacketType) (packet : List ℕ)
      → All IsByte packet
      → decode_header t packet ≡ ok tt
      → (rest : List ℕ) × (packet ≡ 0 ∷ opcode t ∷ rest) × All IsByte rest
  unfolding decode_header
  decode_header_ok t [] bytes h = cc
  decode_header_ok t (a ∷ []) bytes h = cc
  decode_header_ok t (a ∷ b ∷ rest) (ba, (bb, bytes)) h =
      (rest, ground (arith, raw.get_int_lem a b rest ba bb, opcode-IsByte t), bytes)

  -- The type of a packet is that of its first two bytes.
  pub packet_type_lem :
      (t : PacketType)
      → t ≢ PacketType.invalid
      → (rest : List ℕ) → packet_type (0 ∷ opcode t ∷ rest) ≡ t
  unfolding packet_type type_of_opcode
  packet_type_lem PacketType.invalid h rest = absurd (h refl)
  packet_type_lem PacketType.read_request h rest = rw (
    raw.get_int_lem 0 1 rest (omega arith) (omega arith),
    le→ltb (length (0 ∷ 1 ∷ rest)) size (omega arith),
  )
  packet_type_lem PacketType.write_request h rest = rw (
    raw.get_int_lem 0 2 rest (omega arith) (omega arith),
    le→ltb (length (0 ∷ 2 ∷ rest)) size (omega arith),
  )
  packet_type_lem PacketType.data_block h rest = rw (
    raw.get_int_lem 0 3 rest (omega arith) (omega arith),
    le→ltb (length (0 ∷ 3 ∷ rest)) size (omega arith),
  )
  packet_type_lem PacketType.acknowledgement h rest = rw (
    raw.get_int_lem 0 4 rest (omega arith) (omega arith),
    le→ltb (length (0 ∷ 4 ∷ rest)) size (omega arith),
  )
  packet_type_lem PacketType.error h rest = rw (
    raw.get_int_lem 0 5 rest (omega arith) (omega arith),
    le→ltb (length (0 ∷ 5 ∷ rest)) size (omega arith),
  )
  packet_type_lem PacketType.options_acknowledgement h rest = rw (
    raw.get_int_lem 0 6 rest (omega arith) (omega arith),
    le→ltb (length (0 ∷ 6 ∷ rest)) size (omega arith),
  )
