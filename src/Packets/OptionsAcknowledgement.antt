-- ===== src/Packets/OptionsAcknowledgement.antt =====
-- lib/tftp/packets/OptionsAcknowledgementPacket.cpp.
use tftp_senior_design.Base.{
  ℕ, List, [], arith, leb, lt→leb, length, drop, replicate, take_all, ◌≡◌, ◌≢◌, ◌∷◌, ◌++◌,
  if◌then◌else◌,
}
use tftp_senior_design.Helper.{RawData}
use tftp_senior_design.Packets.{PacketType, oack_size, Result, ok, err, ◌>>=◌, ◌>>◌}
use tftp_senior_design.Packets.Header
use tftp_senior_design.Packets.Header.{insert_header, decode_header}
use tftp_senior_design.Packets.OptionMap.{Options, IsSorted}
use tftp_senior_design.Packets.Options.{decode_options, raw_options}
use tftp_senior_design.Packets.Options.RoundTrip.{AreNulFree, decode_options-raw_options}
use tftp_senior_design.Packets.Options.RoundTrip

pub record OptionsAcknowledgementPacket : Type 0 where
  pub options : Options

module _ (raw : RawData) where
  unfoldable pub encode : OptionsAcknowledgementPacket → List ℕ
  encode p =
      insert_header raw PacketType.options_acknowledgement (replicate Header.size 0)
      ++ raw_options raw p.options

  unfoldable pub decode_body : List ℕ → Result OptionsAcknowledgementPacket
  decode_body packet =
      if leb (length packet) Header.size
      then err oack_size
      else let span = drop Header.size packet in
        do
          options ← decode_options (raw.get_string span (length span)).1
          ok (record { options = options })

  unfoldable pub decode : List ℕ → Result OptionsAcknowledgementPacket
  unfolding decode_body
  decode packet = decode_header raw PacketType.options_acknowledgement packet >> decode_body packet

  -- The wire format.
  pub encode_lem : (p : OptionsAcknowledgementPacket) → encode p ≡ 0 ∷ 6 ∷ raw_options raw p.options
  unfolding encode
  encode_lem p = rw (Header.insert_header_lem raw PacketType.options_acknowledgement 0 0 [])

  -- An options acknowledgement is read back as it was written, if it has an option at least, its
  -- options are a map, and their names and values are free of the character 0.
  pub decode-encode_oack :
      (p : OptionsAcknowledgementPacket)
      → p.options ≢ []
      → IsSorted p.options
      → AreNulFree p.options
      → decode (encode p) ≡ ok p
  unfolding decode
  decode-encode_oack p full s f =
      let rest = raw_options raw p.options in
      rw (
        encode_lem p,
        Header.decode_header_good raw PacketType.options_acknowledgement rest,
        lt→leb (length (0 ∷ 6 ∷ rest)) Header.size
            (omega (arith, RoundTrip.raw_options_pos raw p.options full)),
        raw.get_string_lem rest (length rest) (omega arith),
        take_all (length rest) rest (omega arith),
        decode_options-raw_options raw p.options s f,
      )

  -- A packet without options is refused, though one can be written.
  pub decode-encode_empty : decode (encode (record { options = [] })) ≡ err oack_size
  unfolding decode raw_options
  decode-encode_empty = rw (
    encode_lem (record { options = [] }),
    Header.decode_header_good raw PacketType.options_acknowledgement [],
  )
