-- ===== src/Packets/Request.antt =====
-- lib/tftp/packets/ReadWriteRequestPacket.cpp, with ReadRequestPacket and WriteRequestPacket, which
-- fix the packet type.
use tftp_senior_design.Base.{
  ℕ, zero, suc, refl, Bool, true, false, none, some, List, [], append-nil, append_assoc, arith, leb,
  lt→leb, length, take, drop, replicate, length-append, length-drop, length-replicate, drop_all,
  take_all, take-length-append, ◌+◌, ◌≤◌, ◌<◌, ◌≡◌, ◌∙◌, ◌∷◌, ◌++◌, ◌==◌, if◌then◌else◌,
}
use tftp_senior_design.Text.{text, to_upper, IsNulFree, find_nul, before, after}
use tftp_senior_design.Text
use tftp_senior_design.Text.Order.{compare_text}
use tftp_senior_design.Helper.{RawData}
use tftp_senior_design.Packets.{
  PacketType, TransferMode, opcode, request_size, request_termination, filename_termination,
  mode_termination, packet_type, Result, ok, err, ◌>>=◌, ◌>>◌,
}
use tftp_senior_design.Packets.Header
use tftp_senior_design.Packets.Header.{insert_header, decode_header}
use tftp_senior_design.Packets.ErrorMessage.{back, back-append}
use tftp_senior_design.Packets.OptionMap.{Options, IsSorted}
use tftp_senior_design.Packets.Options.{decode_options, raw_options}
use tftp_senior_design.Packets.Options.RoundTrip.{AreNulFree, decode_options-raw_options}
use tftp_senior_design.Packets.Options.RoundTrip
use Prim.Native.Nat.{Ordering}
use mathlib.Core.List.{map}

pub record RequestPacket : Type 0 where
  pub filename : List ℕ
  pub mode : TransferMode
  pub options : Options

-- `decodeMode` of a mode.
unfoldable pub mode_text : TransferMode → List ℕ
mode_text TransferMode.octet = text "OCTET"
mode_text TransferMode.netascii = text "NETASCII"
mode_text TransferMode.mail = text "MAIL"
mode_text TransferMode.invalid = []

abbrev same_text : List ℕ → List ℕ → Bool
same_text s t = elim (compare_text s t) [ Ordering.eq ↦ true | _ ↦ false ]

-- `decodeMode` of a text, in letters of either case.
unfoldable pub decode_mode : List ℕ → TransferMode
decode_mode s =
    let upper = map to_upper s in
    if same_text upper (text "OCTET")
    then TransferMode.octet
    else if same_text upper (text "NETASCII")
    then TransferMode.netascii
    else if same_text upper (text "MAIL")
    then TransferMode.mail
    else TransferMode.invalid

-- The switch of the constructors.
unfoldable pub check_type : PacketType → Result (Unit {0})
check_type PacketType.read_request = ok tt
check_type PacketType.write_request = ok tt
check_type _ = err packet_type

pub check_type_read : check_type PacketType.read_request ≡ ok tt
unfolding check_type
check_type_read = refl

pub check_type_write : check_type PacketType.write_request ≡ ok tt
unfolding check_type
check_type_write = refl

-- A write cursor: what is written of a span, and what is left of it.
abbrev write : List ℕ × List ℕ → List ℕ → List ℕ × List ℕ
write (done, span) xs = (done ++ xs, drop (length xs) span)

-- The text of a transfer mode is read back as that mode; the text of the invalid mode, which is
-- empty, as the invalid mode.
pub decode_mode-mode_text : (m : TransferMode) → decode_mode (mode_text m) ≡ m
unfolding decode_mode mode_text text to_upper compare_text
decode_mode-mode_text TransferMode.octet = refl
decode_mode-mode_text TransferMode.netascii = refl
decode_mode-mode_text TransferMode.mail = refl
decode_mode-mode_text TransferMode.invalid = refl

mode_text-IsNulFree : (m : TransferMode) → IsNulFree (mode_text m)
unfolding mode_text text
mode_text-IsNulFree TransferMode.octet = omega arith
mode_text-IsNulFree TransferMode.netascii = omega arith
mode_text-IsNulFree TransferMode.mail = omega arith
mode_text-IsNulFree TransferMode.invalid = omega arith

module _ (raw : RawData) (t : PacketType) where
  unfoldable pub encode : RequestPacket → List ℕ
  encode p =
      let mode = mode_text p.mode in
      let options = raw_options raw p.options in
      let packet = insert_header raw t (
        replicate (Header.size + (length p.filename + 1 + (length mode + 1 + length options))) 0) in
      let (written, rest) =
        write
          (write
            (write
              (write (write ([], drop Header.size packet) (raw.as_raw_data p.filename)) (0 ∷ []))
              (raw.as_raw_data mode))
            (0 ∷ []))
          options in
      take Header.size packet ++ (written ++ rest)

  -- The parts behind the file name.
  unfoldable pub decode_mode_part : List ℕ → List ℕ → Result RequestPacket
  decode_mode_part filename s = elim (find_nul s) [
    | none ↦ err mode_termination
    | some mode_end ↦ decode_options (after mode_end s) >>= λ options.
        ok (record {
          filename = filename;
          mode = decode_mode (before mode_end s);
          options = options;
        })
  ]

  unfoldable pub decode_filename_part : List ℕ → Result RequestPacket
  decode_filename_part s = elim (find_nul s) [
    | none ↦ err filename_termination
    | some filename_end ↦ decode_mode_part (before filename_end s) (after filename_end s)
  ]

  unfoldable pub decode_body : List ℕ → Result RequestPacket
  decode_body packet =
      if leb (length packet) Header.size
      then err request_size
      else let span = drop Header.size packet in
        if back span == 0
        then decode_filename_part (raw.get_string span (length span)).1
        else err request_termination

  unfoldable pub decode : List ℕ → Result RequestPacket
  decode packet = decode_header raw t packet >> (check_type t >> decode_body packet)

  -- The wire format: the file name and the mode, each ended by a 0, and the options.
  pub encode_lem :
      (p : RequestPacket)
      → encode p
        ≡ 0 ∷ opcode t ∷ (p.filename ++ (0 ∷ (mode_text p.mode ++ (0 ∷ raw_options raw p.options))))
  unfolding encode
  encode_lem p =
      let mode = mode_text p.mode in
      let options = raw_options raw p.options in
      let n = length p.filename + 1 + (length mode + 1 + length options) in
      let span = replicate n zero in
      let size : Header.size + n ≡ suc (suc n) = omega arith in
      let behind = drop (length p.filename) span in
      let rest = drop (length mode) (drop 1 behind) in
      let long : length (drop 1 rest) ≤ length options = omega (
        arith,
        length-drop 1 rest,
        length-drop (length mode) (drop 1 behind),
        length-drop 1 behind,
        length-drop (length p.filename) span,
        length-replicate n zero,
      ) in
      rw
        (
          size,
          Header.insert_header_lem raw t 0 0 span,
          raw.as_raw_data_lem p.filename,
          raw.as_raw_data_lem mode,
          drop_all (length options) (drop 1 rest) long,
          append-nil,
        )
        (simp append_assoc)

  -- Nothing is refused before the file name is looked for, in a request whose parts end in 0.
  ended_request :
      (p : RequestPacket)
      → back (p.filename ++ (0 ∷ (mode_text p.mode ++ (0 ∷ raw_options raw p.options)))) ≡ 0
  ended_request p =
      back-append p.filename 0 (mode_text p.mode ++ (0 ∷ raw_options raw p.options))
      ∙ back-append (0 ∷ mode_text p.mode) 0 (raw_options raw p.options)
      ∙ RoundTrip.raw_options_end raw p.options

  decode_body_ended :
      (a b : ℕ) (span : List ℕ)
      → 0 < length span
      → back span ≡ 0
      → decode_body (a ∷ b ∷ span) ≡ decode_filename_part span
  unfolding decode_body
  decode_body_ended a b span h e = rw (
    lt→leb (length (a ∷ b ∷ span)) Header.size (omega arith),
    e,
    raw.get_string_lem span (length span) (omega arith),
    take_all (length span) span (omega arith),
  )

  decode_mode_part_lem :
      (p : RequestPacket)
      → IsSorted p.options
      → AreNulFree p.options
      → decode_mode_part p.filename (mode_text p.mode ++ (0 ∷ raw_options raw p.options)) ≡ ok p
  unfolding decode_mode_part
  decode_mode_part_lem p s f =
      let options = raw_options raw p.options in
      let mode = mode_text p.mode in
      rw (Text.find_nul-append mode options (mode_text-IsNulFree p.mode), decode_mode_part)
        (rw (
          Text.after-append mode options,
          decode_options-raw_options raw p.options s f,
          take-length-append mode (0 ∷ options),
          decode_mode-mode_text p.mode,
        ))

  decode_filename_part_lem :
      (p : RequestPacket)
      → IsNulFree p.filename
      → IsSorted p.options
      → AreNulFree p.options
      → decode_filename_part
          (p.filename ++ (0 ∷ (mode_text p.mode ++ (0 ∷ raw_options raw p.options))))
        ≡ ok p
  unfolding decode_filename_part
  decode_filename_part_lem p name s f =
      let tail = mode_text p.mode ++ (0 ∷ raw_options raw p.options) in
      rw (Text.find_nul-append p.filename tail name, decode_filename_part)
        (rw (Text.after-append p.filename tail, take-length-append p.filename (0 ∷ tail))
          (decode_mode_part_lem p s f))

  module _ (allowed : check_type t ≡ ok tt) where
    -- A read or write request is read back as it was written, if its options are a map, and its file
    -- name, option names and option values are free of the character 0.
    pub decode-encode_request :
        (p : RequestPacket)
        → IsNulFree p.filename
        → IsSorted p.options
        → AreNulFree p.options
        → decode (encode p) ≡ ok p
    unfolding decode
    decode-encode_request p name s f =
        let tail = mode_text p.mode ++ (0 ∷ raw_options raw p.options) in
        let span = p.filename ++ (0 ∷ tail) in
        rw (encode_lem p, Header.decode_header_good raw t span, allowed)
          (decode_body_ended 0 (opcode t) span (omega (arith, length-append p.filename (0 ∷ tail)))
              (ended_request p)
            ∙ decode_filename_part_lem p name s f)
