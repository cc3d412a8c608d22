-- ===== src/Transfers/Upload/Client.antt =====
-- What a client that sends a file keeps to once it has sent a block, while acknowledgements arrive and
-- its timer expires.
pub mod Steps
pub mod Acknowledgements
use tftp_senior_design.Base.{
  ℕ, suc, refl, ap, inl, inr, true, false, Option, none, some, List, arith, length, take, drop, ◌<◌,
  ◌≡◌, ◌∙◌, ◌⊎◌, ◌&&◌,
}
use tftp_senior_design.Tftp.{TransmitDataHandler, TransferStatus, successful}
use tftp_senior_design.Tftp.Contracts.{Source}
use tftp_senior_design.Network.{Network, Event, success, sent, sent_to}
use tftp_senior_design.Helper.{RawData}
use tftp_senior_design.Packets.ErrorMessage.{ErrorInformation}
use tftp_senior_design.Packets.BlockNumber.{block, block-IsU16, next-ne, equal, differ, increment}
use tftp_senior_design.Packets.Acknowledgement.{AcknowledgementPacket}
use tftp_senior_design.Packets.DataBlock.{DataPacket}
use tftp_senior_design.Packets.Handler
use tftp_senior_design.Packets.Packet.{Packet, encode}
use tftp_senior_design.Packets.Statistic.{Statistic}
use tftp_senior_design.Clients.Operation.{
  Operation, arrives, expires, receive, finished, Receiver, receiver, first_receiver, Timer,
  transfer_timer, first_timer, dally_timer, send, prepare,
}
use tftp_senior_design.Clients.Operation
use tftp_senior_design.Clients.Operation.Inputs
use tftp_senior_design.Clients.Operation.Inputs.{
  arrive, expire, receive_handler, receive_first_handler, accept_source, retransmit,
  timeout_handler, timeout_first_handler,
}
use tftp_senior_design.Clients.Operation.Sending.{send_faultless}
use tftp_senior_design.Clients.WriteOperation.{WritePart, State, derived_finished}
use tftp_senior_design.Clients.WriteOperation.Transfer.{
  next_block, send_data, continue_transfer, acknowledged, acknowledgement_packet,
}
use tftp_senior_design.Clients.WriteOperation.Run.{handlers, packet, step}
use tftp_senior_design.Servers.WriteOperation.Transfer.{ack}
use tftp_senior_design.Transfers.Blocks.{offset, chunk, drop-drop, chunk_short, block_packet}
use tftp_senior_design.Transfers.Traces.{
  in_flight, has_succeeded, in_flight-finished, has_succeeded-finished,
}

-- The packet with block `i`.
abbrev pub transmitted : RawData → ℕ → List ℕ → ℕ → List ℕ
transmitted raw n file i = encode raw (Packet.data_block (block_packet n file i))

-- A write operation does not dally.
abbrev pub IsTimed : Option (Timer × ℕ) → Type 0
IsTimed none = Unit
IsTimed (some (first_timer, seconds)) = Unit
IsTimed (some (transfer_timer, seconds)) = Unit
IsTimed (some (dally_timer, seconds)) = ⊥

-- The members of an operation that goes on, of which `i` blocks are acknowledged.
pub record IsOpen {C : Type 0} {hc : TransmitDataHandler C} (source : Source hc) (n : ℕ)
    (file : List ℕ) (i : ℕ) (d : WritePart C) : Type 0 where
  pub numbered : d.last_transmitted_block_number ≡ block (suc i)
  pub received : d.last_received_block_number ≡ block i
  pub sized : d.transmit_data_size ≡ n
  pub plain : d.option_negotiation_handler ≡ none
  pub rest : source.rest d.handler ≡ drop (offset n (suc i)) file
  pub last : d.last_data_packet_transmitted ≡ true → length file < offset n (suc i)

-- The members before block `i` is taken: `i` blocks have been acknowledged.
pub record IsReady {C : Type 0} {hc : TransmitDataHandler C} (source : Source hc) (n : ℕ)
    (file : List ℕ) (i : ℕ) (d : WritePart C) : Type 0 where
  pub numbered : d.last_transmitted_block_number ≡ block i
  pub received : d.last_received_block_number ≡ block i
  pub sized : d.transmit_data_size ≡ n
  pub plain : d.option_negotiation_handler ≡ none
  pub rest : source.rest d.handler ≡ drop (offset n i) file
  pub unfinished : d.last_data_packet_transmitted ≡ false

module _ (raw : RawData) {E C : Type 0} (net : Network E) (peer : E) (hc : TransmitDataHandler C)
    (source : Source hc) (n : ℕ) (file : List ℕ) where
  -- What holds in any case, when the server has received `j` blocks.
  pub record IsKept (i j : ℕ) (s : State E C) : Type 0 where
    pub flight : in_flight s.trace ≡ some (transmitted raw n file i)
    pub bytes : s.transmit_packet ≡ transmitted raw n file i
    pub told : has_succeeded s.trace ≡ true → length file < offset n j
    pub faultless : (k : ℕ) → s.faults k ≡ false
    pub expected : net.same_address s.remote peer ≡ true

  pub record IsClient (i j : ℕ) (s : State E C) : Type 0 where
    pub holds : IsKept i j s
    pub timed : IsTimed s.timing
    pub goes_on : IsOpen source n file i s.derived ⊎ ((s.receiving ≡ none) × (s.timing ≡ none))

  -- The server may receive more.
  pub IsClient-later :
      (i j k : ℕ) (s : State E C)
      → (length file < offset n j → length file < offset n k)
      → IsClient i j s
      → IsClient i k s
  IsClient-later i j k s more w = record {
    holds = record {
      flight = w.holds.flight;
      bytes = w.holds.bytes;
      told = λ e. more (w.holds.told e);
      faultless = w.holds.faultless;
      expected = w.holds.expected;
    };
    timed = w.timed;
    goes_on = w.goes_on;
  }

  pub finished-IsClient :
      (i j : ℕ) (status : TransferStatus) (info : ErrorInformation) (s : State E C)
      → IsKept i j s
      → (status ≡ successful → length file < offset n j)
      → IsClient i j (finished (derived_finished hc) status info s)
  unfolding finished
  finished-IsClient i j status info s w short = record {
    holds = record {
      flight = in_flight-finished (s.is_open && s.has_completion_handler) status s.trace ∙ w.flight;
      bytes = w.bytes;
      told = λ e.
          elim (has_succeeded-finished (s.is_open && s.has_completion_handler) status s.trace e) [
            | inl before ↦ w.told before
            | inr now ↦ short now
          ];
      faultless = w.faultless;
      expected = w.expected;
    };
    timed = tt;
    goes_on = inr (refl, refl);
  }

  pub receive-IsClient :
      (i j : ℕ) (s : State E C)
      → IsKept i j s
      → IsOpen source n file i s.derived
      → IsClient i j (receive (derived_finished hc) s)
  unfolding receive
  receive-IsClient i j s w o = rw (w.faultless 0) (record {
    holds = record {
      flight = w.flight;
      bytes = w.bytes;
      told = w.told;
      faultless = λ k. w.faultless (suc k);
      expected = w.expected;
    };
    timed = tt;
    goes_on = inl o;
  })

  send-IsClient :
      (i j : ℕ) (q : Packet) (s : State E C)
      → encode raw q ≡ transmitted raw n file i
      → IsOpen source n file i s.derived
      → (has_succeeded s.trace ≡ true → length file < offset n j)
      → ((k : ℕ) → s.faults k ≡ false)
      → net.same_address s.remote peer ≡ true
      → IsClient i j (receive (derived_finished hc) (send raw (derived_finished hc) q s))
  unfolding prepare in_flight has_succeeded
  send-IsClient i j q s bytes o told faultless expected =
      rw (send_faultless raw (derived_finished hc) q s (faultless 0)) (
        receive-IsClient i j _
          (record {
            flight = ap some bytes;
            bytes = bytes;
            told = told;
            faultless = λ k. faultless (suc k);
            expected = expected;
          })
          o)

  -- Block `i` is sent, and its acknowledgement awaited.
  pub send_data-IsClient :
      (i j : ℕ) (s : State E C)
      → IsReady source n file i s.derived
      → (has_succeeded s.trace ≡ true → length file < offset n j)
      → ((k : ℕ) → s.faults k ≡ false)
      → net.same_address s.remote peer ≡ true
      → IsClient i j (receive (derived_finished hc) (send_data raw hc s))
  unfolding send_data next_block block increment
  send_data-IsClient i j s r told faultless expected =
      let d = s.derived in
      let packet : DataPacket = record {
        block_number = increment d.last_transmitted_block_number;
        contents = (hc.send_data d.handler d.transmit_data_size).0;
      } in
      let contents : packet.contents ≡ chunk n file i =
        source.send_data_lem d.handler d.transmit_data_size
        ∙ ap (λ m. take m (source.rest d.handler)) r.sized
        ∙ ap (take n) r.rest in
      let number : packet.block_number ≡ block (suc i) = ap increment r.numbered in
      let same : packet ≡ block_packet n file i =
        ap (λ (k : ℕ). record { block_number = k; contents = packet.contents }) number
        ∙ ap (λ (c : List ℕ). record { block_number = block (suc i); contents = c }) contents in
      send-IsClient i j (Packet.data_block packet) _
        (ap (λ p. encode raw (Packet.data_block p)) same)
        (record {
          numbered = number;
          received = r.received;
          sized = r.sized;
          plain = r.plain;
          rest =
              source.rest_lem d.handler d.transmit_data_size
              ∙ ap (λ m. drop m (source.rest d.handler)) r.sized
              ∙ ap (drop n) r.rest
              ∙ drop-drop (offset n i) n file;
          last = λ e.
              chunk_short n file i (ground (arith, r.sized, r.unfinished, e, ap length contents));
        })
        told faultless expected
