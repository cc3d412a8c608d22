-- ===== src/Tests/PacketTests.antt =====
-- The theorems on lib/tftp/packets at concrete inputs.
use tftp_senior_design.Base.{
  ℕ, refl, true, none, some, List, [], arith, ◌+◌, ◌%◌, ◌≤◌, ◌<◌, ◌≡◌, ◌≢◌, ◌↔◌, ◌∷◌, ◌++◌,
}
use tftp_senior_design.Text.{text}
use tftp_senior_design.Text.Order.{compare_text}
use tftp_senior_design.Text.Number.{
  to_string, stoull, skip_space, convert, accumulate, convert_signed,
}
use tftp_senior_design.Helper.{big_endian}
use tftp_senior_design.Packets.{PacketType, TransferMode, ok}
use tftp_senior_design.Packets.BlockNumber
use tftp_senior_design.Packets.Acknowledgement
use tftp_senior_design.Packets.DataBlock
use tftp_senior_design.Packets.ErrorMessage
use tftp_senior_design.Packets.Handler
use tftp_senior_design.Packets.Handler.{Handlers}
use tftp_senior_design.Packets.Header.{insert_header}
use tftp_senior_design.Packets.OptionMap.{Options, IsSorted, lookup, erase}
use tftp_senior_design.Packets.Options.{
  get_option, decode_loop, decode_options, raw_options, decode_value, in_range,
}
use tftp_senior_design.Packets.Options.RoundTrip
use tftp_senior_design.Packets.Options.Values
use tftp_senior_design.Packets.OptionsAcknowledgement
use tftp_senior_design.Packets.Packet.{Packet, encode}
use tftp_senior_design.Packets.Request
use tftp_senior_design.Packets.Request.{RequestPacket}
use tftp_senior_design.Packets.Statistic
use tftp_senior_design.Packets.DataBlock.{DataPacket}

abbrev small_options : Options
small_options = (text "blksize", text "64") ∷ (text "tsize", text "0") ∷ []

small_options-IsSorted : IsSorted small_options
unfolding text compare_text
small_options-IsSorted = ((refl, tt), (tt, tt))

small_options-nul_free : RoundTrip.AreNulFree small_options
unfolding text
small_options-nul_free = omega arith

abbrev small_request : RequestPacket
small_request = record { filename = text "a"; mode = TransferMode.octet; options = small_options }

decode-encode_request_example :
    Request.decode big_endian PacketType.read_request
      (Request.encode big_endian PacketType.read_request small_request)
    ≡ ok small_request
unfolding text
decode-encode_request_example =
    Request.decode-encode_request big_endian PacketType.read_request Request.check_type_read
      small_request (omega arith) small_options-IsSorted small_options-nul_free

decode-encode_oack_example :
    OptionsAcknowledgement.decode big_endian
      (OptionsAcknowledgement.encode big_endian (record { options = small_options }))
    ≡ ok (record { options = small_options })
decode-encode_oack_example =
    OptionsAcknowledgement.decode-encode_oack big_endian (record { options = small_options })
      (λ e. cc) small_options-IsSorted small_options-nul_free

decode_data_iff_example :
    (DataBlock.decode big_endian (0 ∷ 3 ∷ 1 ∷ 2 ∷ 9 ∷ [])
      ≡ ok (record { block_number = 258; contents = 9 ∷ [] }))
    ↔ ((DataBlock.encode big_endian (record { block_number = 258; contents = 9 ∷ [] })
          ≡ 0 ∷ 3 ∷ 1 ∷ 2 ∷ 9 ∷ [])
        × (258 < 65536))
decode_data_iff_example =
    DataBlock.decode_data_iff big_endian (0 ∷ 3 ∷ 1 ∷ 2 ∷ 9 ∷ [])
      (record { block_number = 258; contents = 9 ∷ [] }) (omega arith)

decode_acknowledgement_iff_example :
    (Acknowledgement.decode big_endian (0 ∷ 4 ∷ 1 ∷ 2 ∷ []) ≡ ok (record { block_number = 258 }))
    ↔ ((Acknowledgement.encode big_endian (record { block_number = 258 }) ≡ 0 ∷ 4 ∷ 1 ∷ 2 ∷ [])
        × (258 < 65536))
decode_acknowledgement_iff_example =
    Acknowledgement.decode_acknowledgement_iff big_endian (0 ∷ 4 ∷ 1 ∷ 2 ∷ [])
      (record { block_number = 258 }) (omega arith)

decode_error_iff_example :
    (ErrorMessage.decode big_endian (0 ∷ 5 ∷ 0 ∷ 1 ∷ 65 ∷ 0 ∷ [])
      ≡ ok (record { error_code = 1; error_message = 65 ∷ [] }))
    ↔ ((ErrorMessage.encode big_endian (record { error_code = 1; error_message = 65 ∷ [] })
          ≡ 0 ∷ 5 ∷ 0 ∷ 1 ∷ 65 ∷ 0 ∷ [])
        × (1 < 65536))
decode_error_iff_example =
    ErrorMessage.decode_error_iff big_endian (0 ∷ 5 ∷ 0 ∷ 1 ∷ 65 ∷ 0 ∷ [])
      (record { error_code = 1; error_message = 65 ∷ [] }) (omega arith)

decode_options-raw_options_example :
    decode_options (raw_options big_endian small_options) ≡ ok small_options
decode_options-raw_options_example =
    RoundTrip.decode_options-raw_options big_endian small_options small_options-IsSorted
      small_options-nul_free

decode_options_total_example :
    decode_loop 4 (97 ∷ 0 ∷ 98 ∷ 0 ∷ []) [] ≡ some (decode_options (97 ∷ 0 ∷ 98 ∷ 0 ∷ []))
decode_options_total_example = RoundTrip.decode_options_total (97 ∷ 0 ∷ 98 ∷ 0 ∷ [])

get_option-to_string_example :
    get_option 16 8 65464 (text "blksize") ((text "blksize", to_string 64 ++ text "x") ∷ []) ≡ (
      record { valid = true; value = some 64 },
      erase (text "blksize") ((text "blksize", to_string 64 ++ text "x") ∷ []),
    )
unfolding text lookup compare_text
get_option-to_string_example =
    Values.get_option-to_string 16 8 65464 64 (text "blksize") (text "x")
      ((text "blksize", to_string 64 ++ text "x") ∷ []) (omega arith) (omega arith) (omega arith)
      (omega arith) refl refl

get_option_bounds_example :
    ((get_option 16 8 65464 (text "blksize") small_options).0.valid ≡ true)
    × (8 ≤ 64)
    × (64 ≤ 65464)
unfolding text get_option lookup compare_text decode_value in_range stoull skip_space convert
    accumulate convert_signed
get_option_bounds_example =
    Values.get_option_bounds 16 8 65464 64 (text "blksize") small_options (omega arith) refl

get_option_rest_example :
    IsSorted (get_option 16 8 65464 (text "blksize") small_options).1
    × (lookup (text "blksize") (get_option 16 8 65464 (text "blksize") small_options).1 ≡ none)
    × ((i : List ℕ)
        → i ≢ text "blksize"
        → lookup i (get_option 16 8 65464 (text "blksize") small_options).1
          ≡ lookup i small_options)
get_option_rest_example =
    Values.get_option_rest 16 8 65464 (text "blksize") small_options small_options-IsSorted

-- Handlers that keep the block numbers of the data packets and what is counted.
abbrev counting : Handlers ℕ (List ℕ)
counting = record {
  read_request_packet = λ e p s. s;
  write_request_packet = λ e p s. s;
  data_packet = λ e p s. p.block_number ∷ s;
  acknowledgement_packet = λ e p s. s;
  error_packet = λ e p s. s;
  options_acknowledgement_packet = λ e p s. s;
  invalid_packet = λ e bytes s. 0 ∷ s;
  count = λ t n s. n ∷ s;
}

abbrev small_block : Packet
small_block = Packet.data_block (record { block_number = 7; contents = 9 ∷ [] })

packet-encode_example :
    Handler.packet big_endian counting 1 (encode big_endian small_block) [] ≡ 5 ∷ 7 ∷ []
unfolding encode DataBlock.encode insert_header
packet-encode_example = Handler.packet-encode big_endian counting 1 small_block [] (omega arith)

total-packet_example :
    Statistic.total (Statistic.packet PacketType.data_block 5 [])
    ≡ record { count = 1; total_size = 5 }
unfolding Statistic.total Statistic.total_loop
total-packet_example = Statistic.total-packet PacketType.data_block 5 []

block-suc_example : BlockNumber.block 65536 ≡ 65535 % 65535 + 1
block-suc_example = BlockNumber.block-suc 65535
