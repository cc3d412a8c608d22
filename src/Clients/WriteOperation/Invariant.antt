-- ===== src/Clients/WriteOperation/Invariant.antt =====
-- What a run of the write operation preserves.
use tftp_senior_design.Base.{ℕ, refl, Bool, List, ltb, length, ◌≡◌, ◌||◌}
use tftp_senior_design.Tftp.{TransmitDataHandler}
use tftp_senior_design.Network.{Network, Event}
use tftp_senior_design.Helper.{RawData}
use tftp_senior_design.Packets.{PacketType, Result, ok, err}
use tftp_senior_design.Packets.BlockNumber.{next}
use tftp_senior_design.Packets.DataBlock.{DataPacket}
use tftp_senior_design.Packets.DataBlock
use tftp_senior_design.Packets.Acknowledgement
use tftp_senior_design.Packets.Request.{RequestPacket}
use tftp_senior_design.Packets.Request
use tftp_senior_design.Packets.ErrorMessage.{ErrorPacket}
use tftp_senior_design.Packets.ErrorMessage
use tftp_senior_design.Packets.OptionsAcknowledgement
use tftp_senior_design.Packets.Handler
use tftp_senior_design.Packets.Handler.{handle}
use tftp_senior_design.Packets.Header.{packet_type}
use tftp_senior_design.Clients.Operation.{
  Input, read_request_packet, write_request_packet, invalid_packet, error_packet,
}
use tftp_senior_design.Clients.Operation.Keeps
use tftp_senior_design.Clients.Operation.Steps
use tftp_senior_design.Clients.Operation.Keeps.{Holds, IsClosed}
use tftp_senior_design.Clients.WriteOperation.{WritePart, State, derived_finished}
use tftp_senior_design.Clients.RequestOptions.{IsNegotiable}
use tftp_senior_design.Clients.WriteOperation.Keeps.{
  acknowledgement_packet-kept, options_acknowledgement-kept,
}
use tftp_senior_design.Clients.WriteOperation.Transfer.{data_packet}
use tftp_senior_design.Clients.WriteOperation.Run.{packet, handlers, run}

module _ (raw : RawData) {E H : Type 0} (h : TransmitDataHandler H)
    (P : WritePart H → Bool → Bool → List (Event E) → Type 0)
    (kept : IsClosed (derived_finished h) P)
    (resized : (d : WritePart H) (o b : Bool) (t : List (Event E)) (n : ℕ)
      → IsNegotiable d.options_configuration n
      → P d o b t
      → P (record d { transmit_data_size = n }) o b t)
    (acked : (d : WritePart H) (o b : Bool) (t : List (Event E)) (n : ℕ)
      → P d o b t
      → P (record d { last_received_block_number = n }) o b t)
    (taken : (d : WritePart H) (o b : Bool) (t : List (Event E))
      → P d o b t
      → P
          (record d {
            handler = (h.send_data d.handler d.transmit_data_size).1;
            last_transmitted_block_number = next d.last_transmitted_block_number;
            last_data_packet_transmitted =
                ltb (length (h.send_data d.handler d.transmit_data_size).0) d.transmit_data_size
                || d.last_data_packet_transmitted;
          })
          o
          b
          t) where
  -- One case of the switch on the packet type.
  handle-kept :
      {A : Type 0} (remote : E) (bytes : List ℕ) (t : PacketType)
      (act : E → A → State E H → State E H)
      → ((a : A) (s : State E H) → Holds P s → Holds P (act remote a s))
      → (r : Result A) (s : State E H) → Holds P s
      → Holds P (handle raw (handlers raw h) remote bytes t act r s)
  unfolding invalid_packet
  handle-kept remote bytes t act act-kept (ok a) s p = act-kept a s p
  handle-kept remote bytes t act act-kept (err e) s p = Keeps.refuse-kept raw _ P kept _ _ _ _ p

  -- A packet that cannot be read is refused.
  invalid-kept :
      (remote : E) (bytes : List ℕ) (s : State E H)
      → Holds P s
      → Holds P ((handlers raw h).invalid_packet remote bytes s)
  unfolding invalid_packet
  invalid-kept remote bytes s p = Keeps.refuse-kept raw _ P kept _ _ _ s p

  error-kept :
      (remote : E) (p : ErrorPacket) (s : State E H)
      → Holds P s
      → Holds P ((handlers raw h).error_packet remote p s)
  unfolding error_packet
  error-kept remote p s q = Keeps.finished-kept raw _ P kept _ _ s q

  -- Packets of the classes that only a server or a read operation expects.
  unexpected-kept :
      (remote : E) (s : State E H)
      → Holds P s
      → ((p : RequestPacket) → Holds P ((handlers raw h).read_request_packet remote p s))
        × ((p : RequestPacket) → Holds P ((handlers raw h).write_request_packet remote p s))
        × ((p : DataPacket) → Holds P ((handlers raw h).data_packet remote p s))
  unfolding read_request_packet write_request_packet data_packet
  unexpected-kept remote s q = (
    λ p. Keeps.refuse-kept raw _ P kept _ _ _ s q,
    λ p. Keeps.refuse-kept raw _ P kept _ _ _ s q,
    λ p. Keeps.refuse-kept raw _ P kept _ _ _ s q,
  )

  packet-kept :
      (remote : E) (bytes : List ℕ) (s : State E H)
      → Holds P s
      → Holds P (packet raw h remote bytes s)
  unfolding packet Handler.packet
  packet-kept remote bytes s p = go (packet_type raw bytes) refl
    where
      go : (t : PacketType) → packet_type raw bytes ≡ t → Holds P (packet raw h remote bytes s)
      go PacketType.read_request e =
          rw (e, Handler.packet)
            (handle-kept _ _ _ (handlers raw h).read_request_packet
              (λ b t q. (unexpected-kept remote t q).0 b)
              (Request.decode raw PacketType.read_request bytes) s p)
      go PacketType.write_request e =
          rw (e, Handler.packet)
            (handle-kept _ _ _ (handlers raw h).write_request_packet
              (λ b t q. (unexpected-kept remote t q).1 b)
              (Request.decode raw PacketType.write_request bytes) s p)
      go PacketType.data_block e =
          rw (e, Handler.packet)
            (handle-kept _ _ _ (handlers raw h).data_packet
              (λ b t q. (unexpected-kept remote t q).2 b) (DataBlock.decode raw bytes) s p)
      go PacketType.acknowledgement e =
          rw (e, Handler.packet)
            (handle-kept _ _ _ (handlers raw h).acknowledgement_packet
              (λ b t. acknowledgement_packet-kept raw h P kept resized acked taken remote b t)
              (Acknowledgement.decode raw bytes) s p)
      go PacketType.error e =
          rw (e, Handler.packet)
            (handle-kept _ _ _ (handlers raw h).error_packet (λ b t. error-kept remote b t)
              (ErrorMessage.decode raw bytes) s p)
      go PacketType.options_acknowledgement e =
          rw (e, Handler.packet)
            (handle-kept _ _ _ (handlers raw h).options_acknowledgement_packet
              (λ b t. options_acknowledgement-kept raw h P kept resized acked taken remote b t)
              (OptionsAcknowledgement.decode raw bytes) s p)
      go PacketType.invalid e = rw (e, Handler.packet) (invalid-kept remote bytes _ p)

  -- Every run keeps `P`.
  pub run-kept :
      (net : Network E) (is : List (Input E)) (s : State E H)
      → Holds P s
      → Holds P (run raw net h is s)
  unfolding run
  run-kept net is s p =
      Steps.run-kept raw (derived_finished h) P kept net (packet raw h) packet-kept is s p
