-- ===== src/Packets/DataBlock.antt =====
-- lib/tftp/packets/DataPacket.cpp.
use tftp_senior_design.Base.{
  ℕ, zero, suc, List, [], append-nil, arith, ltb, length, take, drop, replicate, All,
  length-replicate, drop_all, ◌+◌, ◌*◌, ◌/◌, ◌%◌, ◌≡◌, ◌∙◌, ◌↔◌, ◌∷◌, ◌++◌, if◌then◌else◌,
}
use tftp_senior_design.Helper.{RawData, IsByte, IsU16}
use tftp_senior_design.Packets.{PacketType, data_size, Result, ok, err, ◌>>◌, >>-eq-ok}
use tftp_senior_design.Packets.Header
use tftp_senior_design.Packets.Header.{insert_header, decode_header}

pub record DataPacket : Type 0 where
  pub block_number : ℕ
  pub contents : List ℕ

abbrev pub min_packet_size : ℕ
min_packet_size = Header.size + 2

-- `std::ranges::copy` to the start of a span.
abbrev pub copy : List ℕ → List ℕ → List ℕ
copy xs span = xs ++ drop (length xs) span

module _ (raw : RawData) where
  unfoldable pub encode : DataPacket → List ℕ
  encode p =
      let packet =
        insert_header raw PacketType.data_block
          (replicate (min_packet_size + length p.contents) 0) in
      let (written, rest) = raw.set_int (drop Header.size packet) p.block_number in
      take Header.size packet ++ (written ++ copy p.contents rest)

  unfoldable pub decode_body : List ℕ → Result DataPacket
  decode_body packet =
      if ltb (length packet) min_packet_size
      then err data_size
      else let (remaining, number) = raw.get_int (drop Header.size packet) in
        ok (record { block_number = number; contents = remaining })

  unfoldable pub decode : List ℕ → Result DataPacket
  unfolding decode_body
  decode packet = decode_header raw PacketType.data_block packet >> decode_body packet

  -- The wire format.
  pub encode_lem :
      (p : DataPacket)
      → IsU16 p.block_number
      → encode p ≡ 0 ∷ 3 ∷ (p.block_number / 256) ∷ (p.block_number % 256) ∷ p.contents
  unfolding encode
  encode_lem p h =
      let n = length p.contents in
      let size : min_packet_size + n ≡ suc (suc (suc (suc n))) = omega arith in
      rw (
        size,
        Header.insert_header_lem raw PacketType.data_block 0 0 (0 ∷ 0 ∷ replicate n 0),
        raw.set_int_lem 0 0 p.block_number (replicate n 0) h,
        drop_all n (replicate n zero) (omega (arith, length-replicate n zero)),
        append-nil,
      )

  decode_wire :
      (c d : ℕ) (contents : List ℕ)
      → IsByte c
      → IsByte d
      → decode (0 ∷ 3 ∷ c ∷ d ∷ contents)
        ≡ ok (record { block_number = c * 256 + d; contents = contents })
  unfolding decode
  decode_wire c d contents hc hd =
      rw
        (
          Header.decode_header_good raw PacketType.data_block (c ∷ d ∷ contents),
          raw.get_int_lem c d contents hc hd,
        )
        (ground arith)

  decode_shape :
      (rest : List ℕ) (p : DataPacket)
      → All IsByte rest
      → decode_body (0 ∷ 3 ∷ rest) ≡ ok p
      → (c : ℕ) × (d : ℕ) × (rest ≡ c ∷ d ∷ p.contents)
        × IsByte c
        × IsByte d
        × (p.block_number ≡ c * 256 + d)
  unfolding decode_body
  decode_shape [] p bytes h = cc
  decode_shape (c ∷ []) p bytes h = cc
  decode_shape (c ∷ d ∷ rest) p (hc, (hd, _)) h = (
    c,
    d,
    ground (arith, raw.get_int_lem c d rest hc hd),
    hc,
    hd,
    ground (arith, raw.get_int_lem c d rest hc hd),
  )

  -- On bytes, decoding yields a data packet exactly if its block number has 16 bits and the packet
  -- encodes to these bytes.
  pub decode_data_iff :
      (packet : List ℕ) (p : DataPacket)
      → All IsByte packet
      → (decode packet ≡ ok p) ↔ ((encode p ≡ packet) × IsU16 p.block_number)
  unfolding decode
  decode_data_iff packet p bytes = (there, back)
    where
      there : decode packet ≡ ok p → (encode p ≡ packet) × IsU16 p.block_number
      there h =
          let (hh, hb) = >>-eq-ok _ _ h in
          let (rest, e, bs) = Header.decode_header_ok raw _ packet bytes hh in
          let (c, d, f, hc, hd, g) = decode_shape rest p bs (rw e at hb) in
          let small : IsU16 p.block_number = omega arith in
          (encode_lem p small ∙ ground arith, small)

      back : (encode p ≡ packet) × IsU16 p.block_number → decode packet ≡ ok p
      back (e, h) =
          rw (← e, encode_lem p h) (decode_wire _ _ _ (omega arith) (omega arith) ∙ ground arith)

  -- A packet is read back as it was written.
  pub decode-encode : (p : DataPacket) → IsU16 p.block_number → decode (encode p) ≡ ok p
  decode-encode p h =
      rw (encode_lem p h) (decode_wire _ _ _ (omega arith) (omega arith) ∙ ground arith)
