-- ===== src/Clients/WriteOperation/Duplicates.antt =====
-- Repeated acknowledgements and the write operation (acknowledgementPacket).
use tftp_senior_design.Base.{
  ℕ, zero, suc, refl, true, false, none, some, List, arith, replicate, ◌≡◌, ◌∙◌,
}
use tftp_senior_design.Tftp.{TransmitDataHandler}
use tftp_senior_design.Network.{Network, success}
use tftp_senior_design.Helper.{RawData, IsU16}
use tftp_senior_design.Packets.BlockNumber.{equal}
use tftp_senior_design.Packets.Handler
use tftp_senior_design.Packets.Packet.{Packet, encode}
use tftp_senior_design.Clients.Operation.{
  Operation, Input, arrives, receive, receiver, transfer_timer,
}
use tftp_senior_design.Clients.Operation.Inputs.{arrive, receive_handler}
use tftp_senior_design.Clients.Operation
use tftp_senior_design.Clients.Operation.Inputs
use tftp_senior_design.Clients.WriteOperation.{State}
use tftp_senior_design.Clients.WriteOperation.Transfer.{acknowledgement_packet}
use tftp_senior_design.Clients.WriteOperation.Run.{handlers, packet, step, run}

-- The acknowledgement of block `n` was received last, and another packet is awaited; no call throws.
pub record IsAcknowledged {E H : Type 0} (n : ℕ) (s : State E H) : Type 0 where
  pub armed : s.receiving ≡ some receiver
  pub acknowledged : s.derived.last_received_block_number ≡ n
  pub faultless : (k : ℕ) → s.faults k ≡ false

-- Two states agree in what was sent, and in the members of the transfer.
pub record IsUntouched {E H : Type 0} (s t : State E H) : Type 0 where
  pub same_trace : t.trace ≡ s.trace
  pub same_derived : t.derived ≡ s.derived
  pub same_packet : t.transmit_packet ≡ s.transmit_packet

module _ (raw : RawData) {E H : Type 0} (net : Network E) (h : TransmitDataHandler H) where
  abbrev pub repeated : ℕ → List ℕ
  repeated n = encode raw (Packet.acknowledgement (record { block_number = n }))

  -- The answer to a repeated acknowledgement: the reception and the timer start anew.
  abbrev waiting : State E H → State E H
  waiting s = record (Operation.advance s) {
    receiving = some receiver;
    timing = some (transfer_timer, s.receive_timeout);
  }

  acknowledgement_packet-repeated :
      (n : ℕ) (sender : E) (s : State E H)
      → s.derived.last_received_block_number ≡ n
      → s.faults 0 ≡ false
      → acknowledgement_packet raw h sender (record { block_number = n }) s ≡ waiting s
  unfolding acknowledgement_packet receive
  acknowledgement_packet-repeated n sender s a f =
      let same : equal n s.derived.last_received_block_number ≡ true = ground arith in
      rw (same, acknowledgement_packet) (rw (f, receive) refl)

  packet-repeated :
      (n : ℕ) (sender : E) (s : State E H)
      → IsU16 n
      → s.derived.last_received_block_number ≡ n
      → ((k : ℕ) → s.faults k ≡ false)
      → IsAcknowledged n (packet raw h sender (repeated n) s)
        × IsUntouched s (packet raw h sender (repeated n) s)
  unfolding packet
  packet-repeated n sender s u a f =
      rw
        (
          Handler.packet-encode raw (handlers raw h) sender
              (Packet.acknowledgement (record { block_number = n })) s u,
          acknowledgement_packet-repeated n sender s a (f 0),
        )
        (
          record { armed = refl; acknowledged = a; faultless = λ k. f (suc k) },
          record { same_trace = refl; same_derived = refl; same_packet = refl },
        )

  step-repeated :
      (n : ℕ) (sender : E) (s : State E H)
      → IsU16 n
      → IsAcknowledged n s
      → IsAcknowledged n (step raw net h (arrives success sender (repeated n)) s)
        × IsUntouched s (step raw net h (arrives success sender (repeated n)) s)
  unfolding step Inputs.step arrive receive_handler
  step-repeated n sender s u w =
      let (k, t) =
        packet-repeated n s.receive_endpoint (record s { receiving = none }) u w.acknowledged
          w.faultless in
      rw (w.armed, Inputs.step)
        (
          k,
          record {
            same_trace = t.same_trace;
            same_derived = t.same_derived;
            same_packet = t.same_packet;
          },
        )

  -- However often the acknowledgement of a block is repeated, it is answered by nothing: no packet is
  -- sent, no block is taken of the data handler, and the transfer goes on to wait for the next
  -- acknowledgement. No call throws, and the block number has 16 bits.
  pub run-repeated :
      (n k : ℕ) (sender : E) (s : State E H)
      → IsU16 n
      → IsAcknowledged n s
      → IsAcknowledged n (run raw net h (replicate k (arrives success sender (repeated n))) s)
        × IsUntouched s (run raw net h (replicate k (arrives success sender (repeated n))) s)
  unfolding run Inputs.run step
  run-repeated n zero sender s u w =
      (w, record { same_trace = refl; same_derived = refl; same_packet = refl })
  run-repeated n (suc k) sender s u w =
      let (w1, t1) = step-repeated n sender s u w in
      let (w2, t2) = run-repeated n k sender _ u w1 in
      (
        w2,
        record {
          same_trace = t2.same_trace ∙ t1.same_trace;
          same_derived = t2.same_derived ∙ t1.same_derived;
          same_packet = t2.same_packet ∙ t1.same_packet;
        },
      )
