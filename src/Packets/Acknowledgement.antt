-- ===== src/Packets/Acknowledgement.antt =====
-- lib/tftp/packets/AcknowledgementPacket.cpp.
use tftp_senior_design.Base.{
  ℕ, refl, List, [], arith, length, take, drop, replicate, All, ◌+◌, ◌*◌, ◌/◌, ◌%◌, ◌≡◌, ◌∙◌, ◌↔◌,
  ◌∷◌, ◌++◌, ◌==◌, if◌then◌else◌,
}
use tftp_senior_design.Helper.{RawData, IsByte, IsU16}
use tftp_senior_design.Packets.{PacketType, ack_size, Result, ok, err, ◌>>◌, >>-eq-ok}
use tftp_senior_design.Packets.Header
use tftp_senior_design.Packets.Header.{insert_header, decode_header}

pub record AcknowledgementPacket : Type 0 where
  pub block_number : ℕ

abbrev pub packet_size : ℕ
packet_size = Header.size + 2

module _ (raw : RawData) where
  unfoldable pub encode : AcknowledgementPacket → List ℕ
  encode p =
      let packet = insert_header raw PacketType.acknowledgement (replicate packet_size 0) in
      let (written, rest) = raw.set_int (drop Header.size packet) p.block_number in
      take Header.size packet ++ (written ++ rest)

  unfoldable pub decode_body : List ℕ → Result AcknowledgementPacket
  decode_body packet =
      if length packet == packet_size
      then ok (record { block_number = (raw.get_int (drop Header.size packet)).1 })
      else err ack_size

  unfoldable pub decode : List ℕ → Result AcknowledgementPacket
  unfolding decode_body
  decode packet = decode_header raw PacketType.acknowledgement packet >> decode_body packet

  -- The wire format.
  pub encode_lem :
      (p : AcknowledgementPacket)
      → IsU16 p.block_number
      → encode p ≡ 0 ∷ 4 ∷ (p.block_number / 256) ∷ (p.block_number % 256) ∷ []
  unfolding encode
  encode_lem p h = rw (
    Header.insert_header_lem raw PacketType.acknowledgement 0 0 (0 ∷ 0 ∷ []),
    raw.set_int_lem 0 0 p.block_number [] h,
  )

  decode_wire :
      (c d : ℕ)
      → IsByte c
      → IsByte d
      → decode (0 ∷ 4 ∷ c ∷ d ∷ []) ≡ ok (record { block_number = c * 256 + d })
  unfolding decode
  decode_wire c d hc hd = rw (
    Header.decode_header_good raw PacketType.acknowledgement (c ∷ d ∷ []),
    raw.get_int_lem c d [] hc hd,
  )

  decode_shape :
      (rest : List ℕ) (p : AcknowledgementPacket)
      → All IsByte rest
      → decode_body (0 ∷ 4 ∷ rest) ≡ ok p
      → (c : ℕ) × (d : ℕ) × (rest ≡ c ∷ d ∷ [])
        × IsByte c
        × IsByte d
        × (p.block_number ≡ c * 256 + d)
  unfolding decode_body
  decode_shape [] p bytes h = cc
  decode_shape (c ∷ []) p bytes h = cc
  decode_shape (c ∷ d ∷ []) p (hc, (hd, _)) h =
      (c, d, refl, hc, hd, ground (arith, raw.get_int_lem c d [] hc hd))
  decode_shape (c ∷ d ∷ e ∷ rest) p bytes h = ground arith

  -- On bytes, decoding yields an acknowledgement exactly if its block number has 16 bits and the
  -- packet encodes to these bytes.
  pub decode_acknowledgement_iff :
      (packet : List ℕ) (p : AcknowledgementPacket)
      → All IsByte packet
      → (decode packet ≡ ok p) ↔ ((encode p ≡ packet) × IsU16 p.block_number)
  unfolding decode
  decode_acknowledgement_iff packet p bytes = (there, back)
    where
      there : decode packet ≡ ok p → (encode p ≡ packet) × IsU16 p.block_number
      there h =
          let (hh, hb) = >>-eq-ok _ _ h in
          let (rest, e, bs) = Header.decode_header_ok raw _ packet bytes hh in
          let (c, d, f, hc, hd, g) = decode_shape rest p bs (rw e at hb) in
          let small : IsU16 p.block_number = omega arith in
          (encode_lem p small ∙ ground arith, small)

      back : (encode p ≡ packet) × IsU16 p.block_number → decode packet ≡ ok p
      back (e, h) =
          rw (← e, encode_lem p h) (decode_wire _ _ (omega arith) (omega arith) ∙ ground arith)

  -- A packet is read back as it was written.
  pub decode-encode : (p : AcknowledgementPacket) → IsU16 p.block_number → decode (encode p) ≡ ok p
  decode-encode p h =
      rw (encode_lem p h) (decode_wire _ _ (omega arith) (omega arith) ∙ ground arith)
