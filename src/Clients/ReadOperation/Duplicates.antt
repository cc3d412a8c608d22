-- ===== src/Clients/ReadOperation/Duplicates.antt =====
-- Repeated data blocks and the read operation (dataPacket).
use tftp_senior_design.Base.{
  ℕ, zero, suc, refl, ap, inl, inr, true, false, Option, none, some, List, arith, ltb, le→ltb,
  Bool-cases, length, replicate, replicate-append, ◌*◌, ◌≤◌, ◌≡◌, ◌∙◌, ◌⊎◌, ◌∷◌, ◌++◌,
  if◌then◌else◌,
}
use tftp_senior_design.Tftp.{ReceiveDataHandler}
use tftp_senior_design.Network.{Network, Event, success, sent}
use tftp_senior_design.Helper.{RawData, IsU16}
use tftp_senior_design.Packets.BlockNumber.{equal}
use tftp_senior_design.Packets.DataBlock.{DataPacket}
use tftp_senior_design.Packets.Handler
use tftp_senior_design.Packets.Packet.{Packet, encode}
use tftp_senior_design.Clients.Operation.{
  Operation, Input, arrives, receive, receive_dally, receiver, Timer, transfer_timer, dally_timer,
  send,
}
use tftp_senior_design.Clients.Operation
use tftp_senior_design.Clients.Operation.Inputs
use tftp_senior_design.Clients.Operation.Inputs.{arrive, receive_handler}
use tftp_senior_design.Clients.Operation.Sending.{send_faultless}
use tftp_senior_design.Clients.ReadOperation.{ReadPart, State, derived_finished}
use tftp_senior_design.Clients.ReadOperation.Transfer.{ack, data_packet, after_ack}
use tftp_senior_design.Clients.ReadOperation.Run.{handlers, packet, step, run}

-- Block `p` was received last, and another packet is awaited: the block is no short one, or the
-- operation dallies after the last one; no call throws.
-- `d` and `trace` are the derived members and what was done.
pub record IsReceived {E H : Type 0} (p : DataPacket) (d : ReadPart H) (trace : List (Event E))
    (s : State E H) : Type 0 where
  pub armed : s.receiving ≡ some receiver
  pub members : s.derived ≡ d
  pub received : d.last_received_block_number ≡ p.block_number
  pub goes_on : (d.receive_data_size ≤ length p.contents) ⊎ (d.dally ≡ true)
  pub traced : s.trace ≡ trace
  pub faultless : (k : ℕ) → s.faults k ≡ false

module _ (raw : RawData) {E H : Type 0} (net : Network E) (h : ReceiveDataHandler H) where
  abbrev pub answer : DataPacket → Event E
  answer p = sent (encode raw (ack p.block_number))

  abbrev listening : Option (Timer × ℕ) → State E H → State E H
  listening timing s = record (Operation.advance s) { receiving = some receiver; timing = timing }

  -- The timer that is started behind a block of `n` bytes.
  abbrev timing_after : ℕ → State E H → Option (Timer × ℕ)
  timing_after n s =
      if ltb n s.derived.receive_data_size
      then some (dally_timer, 2 * s.receive_timeout)
      else some (transfer_timer, s.receive_timeout)

  after_ack_going_on :
      (n : ℕ) (s : State E H)
      → (s.derived.receive_data_size ≤ n) ⊎ (s.derived.dally ≡ true)
      → s.faults 0 ≡ false
      → after_ack raw h n s ≡ listening (timing_after n s) s
  unfolding after_ack receive receive_dally
  after_ack_going_on n s (inl l) f =
      rw (le→ltb n s.derived.receive_data_size l, after_ack) (rw (f, receive) refl)
  after_ack_going_on n s (inr d) f = elim (Bool-cases (ltb n s.derived.receive_data_size)) [
    | inl e ↦ rw (e, after_ack) (rw (d, f, receive_dally) refl)
    | inr e ↦ rw (e, after_ack) (rw (f, receive) refl)
  ]

  -- The acknowledgement is sent again, and the reception and the timer start anew.
  data_packet-repeated :
      (p : DataPacket) (sender : E) (s : State E H)
      → s.derived.last_received_block_number ≡ p.block_number
      → (s.derived.receive_data_size ≤ length p.contents) ⊎ (s.derived.dally ≡ true)
      → ((k : ℕ) → s.faults k ≡ false)
      → data_packet raw h sender p s
        ≡ listening (timing_after (length p.contents) s) (
            Operation.log (answer p) (
              Operation.prepare raw
                (derived_finished h)
                (ack p.block_number)
                (Operation.advance s)))
  unfolding data_packet Operation.prepare
  data_packet-repeated p sender s a l f =
      let same : equal p.block_number s.derived.last_received_block_number ≡ true = ground arith in
      let n = length p.contents in
      rw (same, data_packet)
        (ap (λ k. after_ack raw h n (send raw (derived_finished h) (ack k) s)) a
          ∙ ap (after_ack raw h n)
              (send_faultless raw (derived_finished h) (ack p.block_number) s (f 0))
          ∙ after_ack_going_on n _ l (f 1))

  step-repeated :
      (p : DataPacket) (d : ReadPart H) (trace : List (Event E)) (sender : E) (s : State E H)
      → IsU16 p.block_number
      → IsReceived p d trace s
      → IsReceived p d
          (answer p ∷ trace)
          (step raw net h (arrives success sender (encode raw (Packet.data_block p))) s)
  unfolding step packet Inputs.step arrive receive_handler Operation.prepare
  step-repeated p d trace sender s u w =
      let s1 = record s { receiving = none } in
      let a = ap (λ (e : ReadPart H). e.last_received_block_number) w.members ∙ w.received in
      let size : (s.derived.receive_data_size ≤ length p.contents) ⊎ (s.derived.dally ≡ true) =
        rw w.members w.goes_on in
      rw (w.armed, Inputs.step)
        (rw
          (
            Handler.packet-encode raw (handlers raw h) s.receive_endpoint (Packet.data_block p) s1
                u,
            data_packet-repeated p s.receive_endpoint s1 a size w.faultless,
          )
          (record {
            armed = refl;
            members = w.members;
            received = w.received;
            goes_on = w.goes_on;
            traced = ap (◌∷◌ (answer p)) w.traced;
            faultless = λ k. w.faultless (suc (suc k));
          }))

  -- However often the block received last is repeated, each repetition is answered by its
  -- acknowledgement and by nothing else: nothing is handed to the data handler again, the members of
  -- the transfer stay as they are, and it goes on to wait. The block is no short one, or the
  -- operation dallies after the last one; its number has 16 bits, and no call throws.
  pub run-repeated_block :
      (p : DataPacket) (d : ReadPart H) (k : ℕ) (trace : List (Event E)) (sender : E)
      (s : State E H)
      → IsU16 p.block_number
      → IsReceived p d trace s
      → IsReceived p d (replicate k (answer p) ++ trace) (
          run raw net h (replicate k (arrives success sender (encode raw (Packet.data_block p)))) s)
  unfolding run Inputs.run step
  run-repeated_block p d zero trace sender s u w = w
  run-repeated_block p d (suc k) trace sender s u w = rw⁻¹ (replicate-append k (answer p) trace) (
      run-repeated_block p d k (answer p ∷ trace) sender _ u (step-repeated p d trace sender s u w))
