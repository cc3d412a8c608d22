-- ===== src/Packets/ErrorMessage.antt =====
-- lib/tftp/packets/ErrorPacket.cpp.
use tftp_senior_design.Base.{
  ℕ, zero, suc, refl, ap, Option, some, List, [], arith, ltb, le→ltb, length, take, drop, replicate,
  All, length-append, length-replicate, take-length-append, ◌+◌, ◌-◌, ◌*◌, ◌/◌, ◌%◌, ◌≡◌, ◌∙◌, ◌↔◌,
  ◌∷◌, ◌++◌, ◌==◌, if◌then◌else◌,
}
use tftp_senior_design.Helper.{RawData, IsByte, IsU16}
use tftp_senior_design.Packets.{
  PacketType, error_size, error_termination, Result, ok, err, ◌>>◌, >>-eq-ok,
}
use tftp_senior_design.Packets.ErrorCode
use tftp_senior_design.Packets.Header
use tftp_senior_design.Packets.Header.{insert_header, decode_header}

pub record ErrorPacket : Type 0 where
  pub error_code : ℕ
  pub error_message : List ℕ

-- The packet of the default constructor.
abbrev pub default_packet : ErrorPacket
default_packet = record { error_code = ErrorCode.invalid; error_message = [] }

abbrev pub min_packet_size : ℕ
min_packet_size = Header.size + 2 + 1

-- `ErrorInformation`, and `ErrorPacket::errorInformation`.
abbrev pub ErrorInformation : Type 0
ErrorInformation = Option (ℕ × List ℕ)

abbrev pub error_information : ErrorPacket → ErrorInformation
error_information p = some (p.error_code, p.error_message)

-- `span.back()`, which is read of a span that is not empty.
unfoldable pub back : List ℕ → ℕ
back [] = 0
back (x ∷ []) = x
back (x ∷ y ∷ ys) = back (y ∷ ys)

-- `span.back() = v`.
unfoldable pub set_back : List ℕ → ℕ → List ℕ
set_back [] v = []
set_back (x ∷ []) v = v ∷ []
set_back (x ∷ y ∷ ys) v = x ∷ set_back (y ∷ ys) v

-- A list that ends in `v` is all but its last element, and `v`.
pub back_split :
    (v x : ℕ) (xs : List ℕ) → back (x ∷ xs) ≡ v → take (length xs) (x ∷ xs) ++ (v ∷ []) ≡ x ∷ xs
unfolding back
back_split v x [] h = rw h
back_split v x (y ∷ ys) h = ap (◌∷◌ x) (back_split v y ys h)

-- The last element of a list that goes on is that of its rest.
pub back-append : (xs : List ℕ) (y : ℕ) (ys : List ℕ) → back (xs ++ (y ∷ ys)) ≡ back (y ∷ ys)
unfolding back
back-append [] y ys = refl
back-append (x ∷ []) y ys = refl
back-append (x ∷ z ∷ xs) y ys = back-append (z ∷ xs) y ys

back_one : back (0 ∷ []) ≡ 0
unfolding back
back_one = refl

drop-replicate : (n : ℕ) → drop n (replicate (suc n) zero) ≡ 0 ∷ []
drop-replicate zero = refl
drop-replicate (suc n) = drop-replicate n

module _ (raw : RawData) where
  unfoldable pub encode : ErrorPacket → List ℕ
  unfolding set_back
  encode p =
      let packet =
        insert_header raw PacketType.error
          (replicate (min_packet_size + length p.error_message) 0) in
      let (code, span) = raw.set_int (drop Header.size packet) p.error_code in
      let (message, rest) = raw.set_string span p.error_message in
      take Header.size packet ++ (code ++ (message ++ set_back rest 0))

  unfoldable pub decode_body : List ℕ → Result ErrorPacket
  unfolding back
  decode_body packet =
      if ltb (length packet) min_packet_size
      then err error_size
      else let (span, code) = raw.get_int (drop Header.size packet) in
        if back span == 0
        then ok (record {
          error_code = code;
          error_message = (raw.get_string span (length span - 1)).1;
        })
        else err error_termination

  unfoldable pub decode : List ℕ → Result ErrorPacket
  unfolding decode_body
  decode packet = decode_header raw PacketType.error packet >> decode_body packet

  -- The wire format: code, message, and a terminating 0.
  pub encode_lem :
      (p : ErrorPacket)
      → IsU16 p.error_code
      → encode p
        ≡ 0 ∷ 5 ∷ (p.error_code / 256) ∷ (p.error_code % 256) ∷ (p.error_message ++ (0 ∷ []))
  unfolding encode set_back
  encode_lem p h =
      let n = length p.error_message in
      let size : min_packet_size + n ≡ suc (suc (suc (suc (suc n)))) = omega arith in
      rw (
        size,
        Header.insert_header_lem raw PacketType.error 0 0 (0 ∷ 0 ∷ replicate (suc n) 0),
        raw.set_int_lem 0 0 p.error_code (replicate (suc n) 0) h,
        raw.set_string_lem (replicate (suc n) 0) p.error_message
            (omega (arith, length-replicate (suc n) zero)),
        drop-replicate n,
      )

  decode_wire :
      (c d : ℕ) (message : List ℕ)
      → IsByte c
      → IsByte d
      → decode (0 ∷ 5 ∷ c ∷ d ∷ (message ++ (0 ∷ [])))
        ≡ ok (record { error_code = c * 256 + d; error_message = message })
  unfolding decode
  decode_wire c d message hc hd =
      let span = message ++ (0 ∷ []) in
      let long : length span ≡ suc (length message) =
        omega (arith, length-append message (0 ∷ [])) in
      let cut : length span - 1 ≡ length message = omega arith in
      rw (
        Header.decode_header_good raw PacketType.error (c ∷ d ∷ span),
        raw.get_int_lem c d span hc hd,
        le→ltb (length (0 ∷ 5 ∷ c ∷ d ∷ span)) min_packet_size (omega arith),
        back-append message 0 [],
        back_one,
        raw.get_string_lem span (length span - 1) (omega arith),
        cut,
        take-length-append message (0 ∷ []),
      )

  decode_shape :
      (rest : List ℕ) (p : ErrorPacket)
      → All IsByte rest
      → decode_body (0 ∷ 5 ∷ rest) ≡ ok p
      → (c : ℕ) × (d : ℕ) × (rest ≡ c ∷ d ∷ (p.error_message ++ (0 ∷ [])))
        × IsByte c
        × IsByte d
        × (p.error_code ≡ c * 256 + d)
  unfolding decode_body
  decode_shape [] p bytes h = cc
  decode_shape (c ∷ []) p bytes h = cc
  decode_shape (c ∷ d ∷ []) p bytes h = cc
  decode_shape (c ∷ d ∷ x ∷ xs) p (hc, (hd, _)) h =
      let cut : length (x ∷ xs) - 1 ≡ length xs = omega arith in
      let text = raw.get_string_lem (x ∷ xs) (length (x ∷ xs) - 1) (omega arith) in
      let number = raw.get_int_lem c d (x ∷ xs) hc hd in
      let ended : back (x ∷ xs) ≡ 0 = unfold decode_body in ground (arith, number) in
      let message : p.error_message ≡ take (length xs) (x ∷ xs) =
        ground (arith, number, text, cut) in
      (c, d, rw (message, back_split 0 x xs ended), hc, hd, ground (arith, number))

  -- On bytes, decoding yields an error packet exactly if its error code has 16 bits and the packet
  -- encodes to these bytes; the message may hold a 0.
  pub decode_error_iff :
      (packet : List ℕ) (p : ErrorPacket)
      → All IsByte packet
      → (decode packet ≡ ok p) ↔ ((encode p ≡ packet) × IsU16 p.error_code)
  unfolding decode
  decode_error_iff packet p bytes = (there, back_again)
    where
      there : decode packet ≡ ok p → (encode p ≡ packet) × IsU16 p.error_code
      there h =
          let (hh, hb) = >>-eq-ok _ _ h in
          let (rest, e, bs) = Header.decode_header_ok raw _ packet bytes hh in
          let (c, d, f, hc, hd, g) = decode_shape rest p bs (rw e at hb) in
          let small : IsU16 p.error_code = omega arith in (encode_lem p small ∙ ground arith, small)

      back_again : (encode p ≡ packet) × IsU16 p.error_code → decode packet ≡ ok p
      back_again (e, h) =
          rw (← e, encode_lem p h) (decode_wire _ _ _ (omega arith) (omega arith) ∙ ground arith)

  -- A packet is read back as it was written.
  pub decode-encode : (p : ErrorPacket) → IsU16 p.error_code → decode (encode p) ≡ ok p
  decode-encode p h =
      rw (encode_lem p h) (decode_wire _ _ _ (omega arith) (omega arith) ∙ ground arith)
