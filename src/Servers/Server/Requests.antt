-- ===== src/Servers/Server/Requests.antt =====
-- What becomes of a request (receiveHandler, readRequestPacket and writeRequestPacket of
-- lib/tftp/servers/implementation/ServerImpl.cpp), with a request handler and without one.
use tftp_senior_design.Base.{
  ℕ, suc, refl, ap, inl, inr, true, false, Option, none, List, if_elim, Bool-cases, length,
  take_all, ◌≤◌, ◌≡◌, ◌∙◌, ◌∷◌, if◌then◌else◌,
}
use tftp_senior_design.Text.{text}
use tftp_senior_design.Tftp.{RequestType, read, write}
use tftp_senior_design.Network.{success}
use tftp_senior_design.Helper.{RawData}
use tftp_senior_design.Packets.ErrorCode
use tftp_senior_design.Packets.{PacketType}
use tftp_senior_design.Packets.Handler
use tftp_senior_design.Packets.Handler.{dispatch}
use tftp_senior_design.Packets.Packet.{Packet, kind, encode, IsWritable}
use tftp_senior_design.Packets.Request.{RequestPacket}
use tftp_senior_design.Packets.Statistic
use tftp_senior_design.Servers.Server.{
  Server, Request, handed, receive, error_operation, handle_request, read_request_packet,
  write_request_packet, call_request_handler, request_of,
}
use tftp_senior_design.Servers.Server.Run.{handlers, packet, receive_handler, arrive}
use tftp_senior_design.Servers.Server.Serving.{handle_request_set, arrive_receiving}

-- The packet of a request.
abbrev pub request_packet : RequestType → RequestPacket → Packet
request_packet read p = Packet.read_request p
request_packet write p = Packet.write_request p

-- The text of the error that a request is rejected with.
abbrev pub rejection : RequestType → List ℕ
rejection read = text "RRQ packet isn't accepted"
rejection write = text "WRQ"

module _ (raw : RawData) {E : Type 0} where
  dispatch_request :
      (t : RequestType) (remote : E) (p : RequestPacket) (s : Server E)
      → dispatch raw (handlers raw) remote (request_packet t p) s
        ≡ handle_request raw t (rejection t) remote p s
  unfolding read_request_packet write_request_packet
  dispatch_request read remote p s = refl
  dispatch_request write remote p s = refl

  -- What receiving a written request amounts to.
  packet_request :
      (t : RequestType) (remote : E) (p : RequestPacket) (s : Server E)
      → IsWritable (request_packet t p)
      → packet raw remote (encode raw (request_packet t p)) s
        ≡ (handlers raw).count
            (kind (request_packet t p))
            (length (encode raw (request_packet t p)))
            (handle_request raw t (rejection t) remote p s)
  unfolding packet
  packet_request t remote p s k =
      rw
        (
          Handler.packet-encode raw (handlers raw) remote (request_packet t p) s k,
          dispatch_request t remote p s,
        )
        refl

  receive_trace : (s : Server E) → (receive s).trace ≡ s.trace
  unfolding receive
  receive_trace s =
      let later = record s { receive_faults = λ n. s.receive_faults (suc n) } in
      if_elim (λ (t : Server E). t.trace ≡ s.trace) (s.receive_faults 0)
        (record later { escaped = true }) (record later { receiving = true }) (λ e. refl)
        (λ e. refl)

  receive_handler_trace :
      (remote : E) (bytes : List ℕ) (s : Server E)
      → (receive_handler raw success remote bytes s).trace ≡ (packet raw remote bytes s).trace
  unfolding receive_handler
  receive_handler_trace remote bytes s =
      let u = packet raw remote bytes s in
      if_elim (λ (t : Server E). t.trace ≡ u.trace) u.escaped u (receive u) (λ e. refl)
        (λ e. receive_trace u)

  count_trace :
      (t : PacketType) (n : ℕ) (s : Server E) → ((handlers raw).count t n s).trace ≡ s.trace
  count_trace t n s =
      if_elim (λ (u : Server E). u.trace ≡ s.trace) s.escaped s
        (record s { receive_statistic = Statistic.packet t n s.receive_statistic }) (λ e. refl)
        (λ e. refl)

  -- A packet that fits into the buffer is handled whole.
  arrive_whole :
      (remote : E) (bytes : List ℕ) (s : Server E)
      → s.receiving ≡ true
      → length bytes ≤ s.receive_packet_size
      → arrive raw remote bytes s
        ≡ receive_handler raw success remote bytes (record s { receiving = false })
  arrive_whole remote bytes s r fits =
      arrive_receiving raw remote bytes s r
      ∙ ap (λ l. receive_handler raw success remote l (record s { receiving = false }))
          (take_all s.receive_packet_size bytes fits)

  -- A written request of a client, read or write by `t`, reaches the request handler: it is called
  -- once, with the sender, the file name, the mode and the options of the request, split into the
  -- known ones and the others, and nothing is sent. The server has a request handler and receives,
  -- the packet fits into its receive buffer, the names and values of the request are free of the
  -- character 0, and its options are a map.
  pub arrive-request :
      (t : RequestType) (remote : E) (p : RequestPacket) (s : Server E)
      → s.has_request_handler ≡ true
      → s.receiving ≡ true
      → length (encode raw (request_packet t p)) ≤ s.receive_packet_size
      → IsWritable (request_packet t p)
      → (arrive raw remote (encode raw (request_packet t p)) s).trace
        ≡ handed (request_of t remote p) ∷ s.trace
  arrive-request t remote p s h r fits k =
      let u = record s { receiving = false } in
      let bytes = encode raw (request_packet t p) in
      ap (λ (v : Server E). v.trace) (arrive_whole remote bytes s r fits)
      ∙ receive_handler_trace remote bytes u
      ∙ ap (λ (v : Server E). v.trace) (packet_request t remote p u k)
      ∙ count_trace _ _ _
      ∙ ap (λ (v : Server E). v.trace) (handle_request_set raw t (rejection t) remote p u h)

  rejected-unset :
      (local : Option E) (remote : E) (code : ℕ) (message : List ℕ) (s : Server E)
      → s.has_request_handler ≡ false
      → ((error_operation raw local remote code message s).has_request_handler ≡ false)
        × ((error_operation raw local remote code message s).receiving ≡ s.receiving)
  unfolding error_operation
  rejected-unset local remote code message s h = elim (Bool-cases (s.faults 0)) [
    | inl e ↦ rw (e, error_operation) (h, refl)
    | inr e ↦ rw (e, error_operation) (h, refl)
  ]

  call-unset :
      (r : Request E) (s : Server E)
      → s.has_request_handler ≡ false
      → call_request_handler r s ≡ record s { escaped = true }
  unfolding call_request_handler
  call-unset r s h = simp h refl

  handle_request-unset :
      (t : RequestType) (message : List ℕ) (remote : E) (p : RequestPacket) (s : Server E)
      → s.has_request_handler ≡ false
      → ((handle_request raw t message remote p s).escaped ≡ true)
        × ((handle_request raw t message remote p s).receiving ≡ s.receiving)
  unfolding handle_request
  handle_request-unset t message remote p s h =
      let u = error_operation raw none remote ErrorCode.file_not_found message s in
      let (v, w) = rejected-unset none remote ErrorCode.file_not_found message s h in
      let rejected : (if s.has_request_handler then s else u) ≡ u = simp h refl in
      rw (rejected, call-unset (request_of t remote p) u v) (refl, w)

  count_escaped :
      (t : PacketType) (n : ℕ) (s : Server E) → s.escaped ≡ true → (handlers raw).count t n s ≡ s
  count_escaped t n s e = simp e refl

  receive_handler_escaped :
      (remote : E) (bytes : List ℕ) (s : Server E)
      → (packet raw remote bytes s).escaped ≡ true
      → receive_handler raw success remote bytes s ≡ packet raw remote bytes s
  unfolding receive_handler
  receive_handler_escaped remote bytes s e = simp e refl

  -- Without a request handler, a written request makes an exception escape from the server, and the
  -- server receives nothing more; it is not only rejected. The server received before, the packet
  -- fits into its receive buffer, the names and values of the request are free of the character 0,
  -- and its options are a map.
  pub arrive-unset :
      (t : RequestType) (remote : E) (p : RequestPacket) (s : Server E)
      → s.has_request_handler ≡ false
      → s.receiving ≡ true
      → length (encode raw (request_packet t p)) ≤ s.receive_packet_size
      → IsWritable (request_packet t p)
      → ((arrive raw remote (encode raw (request_packet t p)) s).escaped ≡ true)
        × ((arrive raw remote (encode raw (request_packet t p)) s).receiving ≡ false)
  arrive-unset t remote p s h r fits k =
      let u = record s { receiving = false } in
      let bytes = encode raw (request_packet t p) in
      let v = handle_request raw t (rejection t) remote p u in
      let (e, q) = handle_request-unset t (rejection t) remote p u h in
      let handled : packet raw remote bytes u ≡ v =
        packet_request t remote p u k
        ∙ count_escaped (kind (request_packet t p)) (length bytes) v e in
      let left : arrive raw remote bytes s ≡ v =
        arrive_whole remote bytes s r fits
        ∙ receive_handler_escaped remote bytes u (rw handled e)
        ∙ handled in
      rw left (e, q)
