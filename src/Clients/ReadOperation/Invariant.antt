-- ===== src/Clients/ReadOperation/Invariant.antt =====
-- What a run of the read operation preserves.
use tftp_senior_design.Base.{
  ℕ, refl, inl, inr, Bool, true, not, none, List, [], arith, ltb, if_elim, Bool-cases, Option-cases,
  length, ◌≤◌, ◌≡◌, ◌&&◌,
}
use tftp_senior_design.Tftp.{ReceiveDataHandler, successful}
use tftp_senior_design.Network.{Network, Event}
use tftp_senior_design.Helper.{RawData}
use tftp_senior_design.Packets.{PacketType, Result, ok, err}
use tftp_senior_design.Packets.BlockNumber.{next, increment, equal, differ}
use tftp_senior_design.Packets.DataBlock.{DataPacket}
use tftp_senior_design.Packets.DataBlock
use tftp_senior_design.Packets.Acknowledgement.{AcknowledgementPacket}
use tftp_senior_design.Packets.Acknowledgement
use tftp_senior_design.Packets.Request.{RequestPacket}
use tftp_senior_design.Packets.Request
use tftp_senior_design.Packets.ErrorMessage.{ErrorPacket}
use tftp_senior_design.Packets.ErrorMessage
use tftp_senior_design.Packets.OptionsAcknowledgement
use tftp_senior_design.Packets.Handler
use tftp_senior_design.Packets.Handler.{handle}
use tftp_senior_design.Packets.Header.{packet_type}
use tftp_senior_design.Clients.Operation.{
  Input, receive_dally, finished, read_request_packet, write_request_packet, invalid_packet,
  error_packet,
}
use tftp_senior_design.Clients.Operation.Keeps
use tftp_senior_design.Clients.Operation.Steps
use tftp_senior_design.Clients.Operation.Keeps.{Holds, IsClosed}
use tftp_senior_design.Clients.ReadOperation.{ReadPart, State, derived_finished}
use tftp_senior_design.Clients.RequestOptions.{IsNegotiable}
use tftp_senior_design.Clients.ReadOperation.Keeps.{options_acknowledgement-kept}
use tftp_senior_design.Clients.ReadOperation.Transfer.{
  after_ack, accept_block, first_block, data_packet, acknowledgement_packet,
}
use tftp_senior_design.Clients.ReadOperation.Run.{packet, handlers, run}

module _ (raw : RawData) {E H : Type 0} (h : ReceiveDataHandler H)
    (P : ReadPart H → Bool → Bool → List (Event E) → Type 0)
    (kept : IsClosed (derived_finished h) P)
    (accepted : (d : ReadPart H) (o b : Bool) (t : List (Event E)) (c : List ℕ)
      → length c ≤ d.receive_data_size
      → P d o b t
      → P
          (record d {
            handler = h.received_data d.handler c;
            last_received_block_number = next d.last_received_block_number;
          })
          o
          b
          t) where
  after_ack-kept : (n : ℕ) (s : State E H) → Holds P s → Holds P (after_ack raw h n s)
  unfolding after_ack
  after_ack-kept n s p = elim (Bool-cases (ltb n s.derived.receive_data_size)) [
    | inl e ↦
        rw (e, after_ack)
          (if_elim (λ (t : State E H). Holds P t) s.derived.dally
            (receive_dally (derived_finished h) s) (finished (derived_finished h) successful none s)
            (λ a. Keeps.receive_dally-kept raw _ P kept s p)
            (λ a. Keeps.finished-kept raw _ P kept _ _ s p))
    | inr e ↦ rw (e, after_ack) (Keeps.receive-kept raw _ P kept s p)
  ]

  accept_block-kept :
      (b : DataPacket) (s : State E H)
      → length b.contents ≤ s.derived.receive_data_size
      → Holds P s
      → Holds P (accept_block raw h b s)
  unfolding accept_block increment
  accept_block-kept b s fits p = after_ack-kept _ _ (
      Keeps.send-kept raw _ P kept _ _
        (accepted s.derived s.is_open s.has_completion_handler s.trace b.contents fits p))

  first_block-kept :
      (b : DataPacket) (s : State E H)
      → length b.contents ≤ s.derived.receive_data_size
      → Holds P s
      → Holds P (first_block raw h b s)
  unfolding first_block
  first_block-kept b s fits p =
      elim (Bool-cases (equal b.block_number 1 && not s.derived.oack_received)) [
        | inr e ↦ rw (e, first_block) (accept_block-kept b s fits p)
        | inl e ↦ elim (Option-cases s.derived.option_negotiation_handler) [
          | inl o ↦ rw (e, o, first_block) (accept_block-kept b s fits p)
          | inr (f, o) ↦ elim (Bool-cases (f []).0) [
            | inl a ↦ rw (e, o, a, first_block) (accept_block-kept b s fits p)
            | inr a ↦ rw (e, o, a, first_block) (Keeps.refuse-kept raw _ P kept _ _ _ s p)
          ]
        ]
      ]

  data_packet-kept :
      (remote : E) (b : DataPacket) (s : State E H)
      → Holds P s
      → Holds P (data_packet raw h remote b s)
  unfolding data_packet
  data_packet-kept remote b s p =
      let last = s.derived.last_received_block_number in
      elim (Bool-cases (equal b.block_number last)) [
        | inl e ↦ rw (e, data_packet) (after_ack-kept _ _ (Keeps.send-kept raw _ P kept _ s p))
        | inr e ↦ elim (Bool-cases (differ b.block_number (next last))) [
          | inl n ↦ rw (e, n, data_packet) (Keeps.refuse-kept raw _ P kept _ _ _ s p)
          | inr n ↦ elim (Bool-cases (ltb s.derived.receive_data_size (length b.contents))) [
            | inl l ↦ rw (e, n, l, data_packet) (Keeps.refuse-kept raw _ P kept _ _ _ s p)
            | inr l ↦ rw (e, n, l, data_packet) (first_block-kept b s (ground arith) p)
          ]
        ]
      ]

  -- One case of the switch on the packet type.
  handle-kept :
      {A : Type 0} (remote : E) (bytes : List ℕ) (t : PacketType)
      (act : E → A → State E H → State E H)
      → ((a : A) (s : State E H) → Holds P s → Holds P (act remote a s))
      → (r : Result A) (s : State E H) → Holds P s
      → Holds P (handle raw (handlers raw h) remote bytes t act r s)
  unfolding invalid_packet
  handle-kept remote bytes t act act-kept (ok a) s p = act-kept a s p
  handle-kept remote bytes t act act-kept (err e) s p = Keeps.refuse-kept raw _ P kept _ _ _ _ p

module _ (raw : RawData) {E H : Type 0} (h : ReceiveDataHandler H)
    (P Q : ReadPart H → Bool → Bool → List (Event E) → Type 0)
    (kept : IsClosed (derived_finished h) P)
    (accepted : (d : ReadPart H) (o b : Bool) (t : List (Event E)) (c : List ℕ)
      → length c ≤ d.receive_data_size
      → P d o b t
      → P
          (record d {
            handler = h.received_data d.handler c;
            last_received_block_number = next d.last_received_block_number;
          })
          o
          b
          t)
    (early_kept : IsClosed (derived_finished h) Q)
    (resized : (d : ReadPart H) (o b : Bool) (t : List (Event E)) (n : ℕ)
      → IsNegotiable d.options_configuration n
      → Q d o b t
      → Q (record d { receive_data_size = n }) o b t)
    (told : (d : ReadPart H) (o b : Bool) (t : List (Event E)) (n : ℕ)
      → Q d o b t
      → Q (record d { handler = (h.received_transfer_size d.handler n).1 }) o b t)
    (confirmed : (d : ReadPart H) (o b : Bool) (t : List (Event E))
      → Q d o b t
      → Q (record d { oack_received = true }) o b t)
    (narrow : (d : ReadPart H) (o b : Bool) (t : List (Event E))
      → P d o b t
      → d.last_received_block_number ≡ 0
      → Q d o b t)
    (widen : (d : ReadPart H) (o b : Bool) (t : List (Event E)) → Q d o b t → P d o b t) where
  -- A packet that cannot be read is refused.
  invalid-kept :
      (remote : E) (bytes : List ℕ) (s : State E H)
      → Holds P s
      → Holds P ((handlers raw h).invalid_packet remote bytes s)
  unfolding invalid_packet
  invalid-kept remote bytes s p = Keeps.refuse-kept raw _ P kept _ _ _ s p

  error-kept :
      (remote : E) (p : ErrorPacket) (s : State E H)
      → Holds P s
      → Holds P ((handlers raw h).error_packet remote p s)
  unfolding error_packet
  error-kept remote p s q = Keeps.finished-kept raw _ P kept _ _ s q

  -- Packets of the classes that only a server or a write operation expects.
  unexpected-kept :
      (remote : E) (s : State E H)
      → Holds P s
      → ((p : RequestPacket) → Holds P ((handlers raw h).read_request_packet remote p s))
        × ((p : RequestPacket) → Holds P ((handlers raw h).write_request_packet remote p s))
        × ((p : AcknowledgementPacket)
            → Holds P ((handlers raw h).acknowledgement_packet remote p s))
  unfolding read_request_packet write_request_packet acknowledgement_packet
  unexpected-kept remote s q = (
    λ p. Keeps.refuse-kept raw _ P kept _ _ _ s q,
    λ p. Keeps.refuse-kept raw _ P kept _ _ _ s q,
    λ p. Keeps.refuse-kept raw _ P kept _ _ _ s q,
  )

  packet-kept :
      (remote : E) (bytes : List ℕ) (s : State E H)
      → Holds P s
      → Holds P (packet raw h remote bytes s)
  unfolding packet Handler.packet
  packet-kept remote bytes s p = go (packet_type raw bytes) refl
    where
      go : (t : PacketType) → packet_type raw bytes ≡ t → Holds P (packet raw h remote bytes s)
      go PacketType.read_request e =
          rw (e, Handler.packet)
            (handle-kept raw h P kept accepted _ _ _ (handlers raw h).read_request_packet
              (λ b t q. (unexpected-kept remote t q).0 b)
              (Request.decode raw PacketType.read_request bytes) s p)
      go PacketType.write_request e =
          rw (e, Handler.packet)
            (handle-kept raw h P kept accepted _ _ _ (handlers raw h).write_request_packet
              (λ b t q. (unexpected-kept remote t q).1 b)
              (Request.decode raw PacketType.write_request bytes) s p)
      go PacketType.data_block e =
          rw (e, Handler.packet)
            (handle-kept raw h P kept accepted _ _ _ (handlers raw h).data_packet
              (λ b t. data_packet-kept raw h P kept accepted remote b t)
              (DataBlock.decode raw bytes) s p)
      go PacketType.acknowledgement e =
          rw (e, Handler.packet)
            (handle-kept raw h P kept accepted _ _ _ (handlers raw h).acknowledgement_packet
              (λ b t q. (unexpected-kept remote t q).2 b) (Acknowledgement.decode raw bytes) s p)
      go PacketType.error e =
          rw (e, Handler.packet)
            (handle-kept raw h P kept accepted _ _ _ (handlers raw h).error_packet
              (λ b t. error-kept remote b t) (ErrorMessage.decode raw bytes) s p)
      go PacketType.options_acknowledgement e =
          rw (e, Handler.packet)
            (handle-kept raw h P kept accepted _ _ _ (handlers raw h).options_acknowledgement_packet
              (λ b t.
                options_acknowledgement-kept raw h Q early_kept resized told confirmed P kept narrow
                  widen remote b t)
              (OptionsAcknowledgement.decode raw bytes) s p)
      go PacketType.invalid e = rw (e, Handler.packet) (invalid-kept remote bytes _ p)

  -- Every run keeps `P`.
  pub run-kept :
      (net : Network E) (is : List (Input E)) (s : State E H)
      → Holds P s
      → Holds P (run raw net h is s)
  unfolding run
  run-kept net is s p =
      Steps.run-kept raw (derived_finished h) P kept net (packet raw h) packet-kept is s p
