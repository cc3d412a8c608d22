-- ===== src/Servers/Server/Serving.antt =====
-- The server over everything that arrives (receiveHandler, readRequestPacket, writeRequestPacket).
use tftp_senior_design.Base.{
  ℕ, suc, refl, inl, inr, true, false, Option, none, List, [], if_elim, Bool-cases, length, take,
  ◌≡◌, ◌∷◌,
}
use tftp_senior_design.Text.{text}
use tftp_senior_design.Tftp.{RequestType, read, write}
use tftp_senior_design.Helper.{RawData}
use tftp_senior_design.Network.{success}
use tftp_senior_design.Packets.{PacketType, Result, ok, err}
use tftp_senior_design.Packets.Header.{packet_type}
use tftp_senior_design.Packets.Handler
use tftp_senior_design.Packets.Handler.{handle}
use tftp_senior_design.Packets.Request.{RequestPacket}
use tftp_senior_design.Packets.Request
use tftp_senior_design.Packets.Acknowledgement.{AcknowledgementPacket}
use tftp_senior_design.Packets.Acknowledgement
use tftp_senior_design.Packets.DataBlock.{DataPacket}
use tftp_senior_design.Packets.DataBlock
use tftp_senior_design.Packets.ErrorMessage.{ErrorPacket}
use tftp_senior_design.Packets.ErrorMessage
use tftp_senior_design.Packets.OptionsAcknowledgement.{OptionsAcknowledgementPacket}
use tftp_senior_design.Packets.OptionsAcknowledgement
use tftp_senior_design.Packets.Statistic
use tftp_senior_design.Servers.Server.{
  Server, Request, handed, receive, error_operation, handle_request, read_request_packet,
  write_request_packet, data_packet, acknowledgement_packet, error_packet,
  options_acknowledgement_packet, invalid_packet, call_request_handler, request_of, log,
}
use tftp_senior_design.Servers.Server.Run.{handlers, packet, receive_handler, arrive, serve}

-- The server has a request handler, no exception has escaped, and no call that starts a reception
-- throws; those that send an error packet may.
pub record IsServing {E : Type 0} (s : Server E) : Type 0 where
  pub handler_set : s.has_request_handler ≡ true
  pub unescaped : s.escaped ≡ false
  pub faultless : (n : ℕ) → s.receive_faults n ≡ false

module _ (raw : RawData) {E : Type 0} where
  error_operation-IsServing :
      (local : Option E) (remote : E) (code : ℕ) (message : List ℕ) (s : Server E)
      → IsServing s
      → IsServing (error_operation raw local remote code message s)
  unfolding error_operation
  error_operation-IsServing local remote code message s w = elim (Bool-cases (s.faults 0)) [
    | inl e ↦
        rw (e, error_operation)
          (record { handler_set = w.handler_set; unescaped = w.unescaped; faultless = w.faultless })
    | inr e ↦
        rw (e, error_operation)
          (record { handler_set = w.handler_set; unescaped = w.unescaped; faultless = w.faultless })
  ]

  -- A server with a request handler calls it.
  pub handle_request_set :
      (t : RequestType) (message : List ℕ) (remote : E) (p : RequestPacket) (s : Server E)
      → s.has_request_handler ≡ true
      → handle_request raw t message remote p s ≡ log (handed (request_of t remote p)) s
  unfolding handle_request call_request_handler
  handle_request_set t message remote p s h = simp h refl

  handed-IsServing : (r : Request E) (s : Server E) → IsServing s → IsServing (log (handed r) s)
  handed-IsServing r s w = record {
    handler_set = w.handler_set;
    unescaped = w.unescaped;
    faultless = w.faultless;
  }

  count-IsServing :
      (t : PacketType) (n : ℕ) (s : Server E) → IsServing s → IsServing ((handlers raw).count t n s)
  count-IsServing t n s w =
      if_elim IsServing s.escaped s
        (record s { receive_statistic = Statistic.packet t n s.receive_statistic }) (λ e. w)
        (λ e. record {
          handler_set = w.handler_set;
          unescaped = w.unescaped;
          faultless = w.faultless;
        })

  -- One case of the switch on the packet type.
  handle-IsServing :
      {A : Type 0} (remote : E) (bytes : List ℕ) (t : PacketType)
      (act : E → A → Server E → Server E)
      → ((a : A) (s : Server E) → IsServing s → IsServing (act remote a s))
      → (r : Result A) (s : Server E) → IsServing s
      → IsServing (handle raw (handlers raw) remote bytes t act r s)
  unfolding invalid_packet
  handle-IsServing remote bytes t act kept (ok a) s w =
      count-IsServing t (length bytes) (act remote a s) (kept a s w)
  handle-IsServing remote bytes t act kept (err e) s w =
      count-IsServing PacketType.invalid (length bytes) s w

  -- A request is handed on, and everything else is answered by an error or ignored.
  request-IsServing :
      (t : RequestType) (message : List ℕ) (remote : E) (p : RequestPacket) (s : Server E)
      → IsServing s
      → IsServing (handle_request raw t message remote p s)
  request-IsServing t message remote p s w =
      rw (handle_request_set t message remote p s w.handler_set)
        (handed-IsServing (request_of t remote p) s w)

  handlers-IsServing :
      (remote : E) (s : Server E)
      → IsServing s
      → ((p : RequestPacket) → IsServing ((handlers raw).read_request_packet remote p s))
        × ((p : RequestPacket) → IsServing ((handlers raw).write_request_packet remote p s))
        × ((p : DataPacket) → IsServing ((handlers raw).data_packet remote p s))
        × ((p : AcknowledgementPacket)
            → IsServing ((handlers raw).acknowledgement_packet remote p s))
        × ((p : ErrorPacket) → IsServing ((handlers raw).error_packet remote p s))
        × ((p : OptionsAcknowledgementPacket)
            → IsServing ((handlers raw).options_acknowledgement_packet remote p s))
  unfolding read_request_packet write_request_packet data_packet acknowledgement_packet error_packet
      options_acknowledgement_packet
  handlers-IsServing remote s w = (
    λ p. request-IsServing read (text "RRQ packet isn't accepted") remote p s w,
    λ p. request-IsServing write (text "WRQ") remote p s w,
    λ p. error_operation-IsServing none remote _ _ s w,
    λ p. error_operation-IsServing none remote _ _ s w,
    λ p. error_operation-IsServing none remote _ _ s w,
    λ p. error_operation-IsServing none remote _ _ s w,
  )

  packet-IsServing :
      (remote : E) (bytes : List ℕ) (s : Server E)
      → IsServing s
      → IsServing (packet raw remote bytes s)
  unfolding packet Handler.packet invalid_packet
  packet-IsServing remote bytes s w = go (packet_type raw bytes) refl
    where
      go : (t : PacketType) → packet_type raw bytes ≡ t → IsServing (packet raw remote bytes s)
      go PacketType.read_request e =
          rw (e, Handler.packet)
            (handle-IsServing remote bytes PacketType.read_request
              (handlers raw).read_request_packet (λ p t u. (handlers-IsServing remote t u).0 p)
              (Request.decode raw PacketType.read_request bytes) s w)
      go PacketType.write_request e =
          rw (e, Handler.packet)
            (handle-IsServing remote bytes PacketType.write_request
              (handlers raw).write_request_packet (λ p t u. (handlers-IsServing remote t u).1 p)
              (Request.decode raw PacketType.write_request bytes) s w)
      go PacketType.data_block e =
          rw (e, Handler.packet)
            (handle-IsServing remote bytes PacketType.data_block (handlers raw).data_packet
              (λ p t u. (handlers-IsServing remote t u).2 p) (DataBlock.decode raw bytes) s w)
      go PacketType.acknowledgement e =
          rw (e, Handler.packet)
            (handle-IsServing remote bytes PacketType.acknowledgement
              (handlers raw).acknowledgement_packet (λ p t u. (handlers-IsServing remote t u).3 p)
              (Acknowledgement.decode raw bytes) s w)
      go PacketType.error e =
          rw (e, Handler.packet)
            (handle-IsServing remote bytes PacketType.error (handlers raw).error_packet
              (λ p t u. (handlers-IsServing remote t u).4 p) (ErrorMessage.decode raw bytes) s w)
      go PacketType.options_acknowledgement e =
          rw (e, Handler.packet)
            (handle-IsServing remote bytes PacketType.options_acknowledgement
              (handlers raw).options_acknowledgement_packet
              (λ p t u. (handlers-IsServing remote t u).5 p)
              (OptionsAcknowledgement.decode raw bytes) s w)
      go PacketType.invalid e =
          rw (e, Handler.packet) (count-IsServing PacketType.invalid (length bytes) s w)

  receive_lem :
      (s : Server E) → IsServing s → IsServing (receive s) × ((receive s).receiving ≡ true)
  unfolding receive
  receive_lem s w =
      rw (w.faultless 0, receive)
        (
          record {
            handler_set = w.handler_set;
            unescaped = w.unescaped;
            faultless = λ n. w.faultless (suc n);
          },
          refl,
        )

  receive_handler_unescaped :
      (remote : E) (bytes : List ℕ) (s : Server E)
      → (packet raw remote bytes s).escaped ≡ false
      → receive_handler raw success remote bytes s ≡ receive (packet raw remote bytes s)
  unfolding receive_handler
  receive_handler_unescaped remote bytes s e = simp e refl

  pub arrive_receiving :
      (remote : E) (bytes : List ℕ) (s : Server E)
      → s.receiving ≡ true
      → arrive raw remote bytes s
        ≡ receive_handler raw success remote
            (take s.receive_packet_size bytes)
            (record s { receiving = false })
  unfolding arrive
  arrive_receiving remote bytes s r = simp r refl

  arrive-IsServing :
      (remote : E) (bytes : List ℕ) (s : Server E)
      → IsServing s
      → s.receiving ≡ true
      → IsServing (arrive raw remote bytes s) × ((arrive raw remote bytes s).receiving ≡ true)
  arrive-IsServing remote bytes s w r =
      let t = record s { receiving = false } in
      let u : IsServing t = record {
        handler_set = w.handler_set;
        unescaped = w.unescaped;
        faultless = w.faultless;
      } in
      let held = take s.receive_packet_size bytes in
      let v = packet-IsServing remote held t u in
      rw (arrive_receiving remote bytes s r, receive_handler_unescaped remote held t v.unescaped)
        (receive_lem (packet raw remote held t) v)

  -- Whatever arrives, of any length and in whatever order, a server with a request handler goes on to
  -- receive, and no exception escapes, whichever of the calls that open a socket for an error packet
  -- or send one throw. No call that starts a reception throws, no reception completes with an error,
  -- the request handler throws nothing, and the server receives at the start.
  pub serve-IsServing :
      (l : List (E × List ℕ)) (s : Server E)
      → IsServing s
      → s.receiving ≡ true
      → IsServing (serve raw l s) × ((serve raw l s).receiving ≡ true)
  unfolding serve
  serve-IsServing [] s w r = (w, r)
  serve-IsServing ((remote, bytes) ∷ l) s w r =
      let (v, q) = arrive-IsServing remote bytes s w r in serve-IsServing l _ v q
