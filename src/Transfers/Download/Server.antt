-- ===== src/Transfers/Download/Server.antt =====
-- What a server that sends a file keeps to while acknowledgements arrive and its timer expires.
pub mod Steps
pub mod Acknowledgements
use tftp_senior_design.Base.{
  ℕ, suc, refl, ap, inl, inr, true, false, Option, none, some, List, arith, length, take, drop, ◌<◌,
  ◌≡◌, ◌∙◌, ◌⊎◌, ◌&&◌,
}
use tftp_senior_design.Tftp.{TransmitDataHandler, TransferStatus, successful}
use tftp_senior_design.Tftp.Contracts.{Source}
use tftp_senior_design.Network.{success, sent}
use tftp_senior_design.Helper.{RawData}
use tftp_senior_design.Packets.ErrorMessage.{ErrorInformation}
use tftp_senior_design.Packets.BlockNumber.{block, block-IsU16, next-ne, equal, differ, increment}
use tftp_senior_design.Packets.DataBlock.{DataPacket}
use tftp_senior_design.Packets.Handler
use tftp_senior_design.Packets.Packet.{Packet, encode}
use tftp_senior_design.Servers.Operation.{
  Operation, receive, finished, Timer, transfer_timer, dally_timer, send, prepare,
}
use tftp_senior_design.Servers.Operation
use tftp_senior_design.Servers.Operation.Inputs
use tftp_senior_design.Servers.Operation.Inputs.{
  arrives, expires, arrive, expire, receive_handler, retransmit, timeout_handler,
}
use tftp_senior_design.Servers.Operation.Sending.{send_faultless}
use tftp_senior_design.Servers.ReadOperation.{ReadPart, State, derived_finished}
use tftp_senior_design.Servers.ReadOperation.Transfer.{
  next_block, send_data, continue_transfer, acknowledgement_packet,
}
use tftp_senior_design.Servers.ReadOperation.Run.{handlers, packet, step}
use tftp_senior_design.Clients.ReadOperation.Transfer.{ack}
use tftp_senior_design.Transfers.Blocks.{offset, chunk, drop-drop, chunk_short, block_packet}
use tftp_senior_design.Transfers.Traces.{
  in_flight, has_succeeded, in_flight-finished, has_succeeded-finished,
}

module _ (raw : RawData) (n : ℕ) (file : List ℕ) where
  -- The packet with block `i`.
  abbrev pub transmitted : ℕ → List ℕ
  transmitted i = encode raw (Packet.data_block (block_packet n file i))

-- A read operation does not dally.
abbrev IsTimed : Option (Timer × ℕ) → Type 0
IsTimed none = Unit
IsTimed (some (transfer_timer, seconds)) = Unit
IsTimed (some (dally_timer, seconds)) = ⊥

-- The members of an operation that goes on, of which `i` blocks are acknowledged.
pub record IsOpen {S : Type 0} {hs : TransmitDataHandler S} (source : Source hs) (n : ℕ)
    (file : List ℕ) (i : ℕ) (d : ReadPart S) : Type 0 where
  pub numbered : d.last_transmitted_block_number ≡ block (suc i)
  pub acknowledged : d.last_received_block_number ≡ block i
  pub sized : d.transmit_data_size ≡ n
  pub rest : source.rest d.handler ≡ drop (offset n (suc i)) file
  pub last : d.last_data_packet_transmitted ≡ true → length file < offset n (suc i)

-- The members before block `i` is taken: `i` blocks have been acknowledged.
pub record IsReady {S : Type 0} {hs : TransmitDataHandler S} (source : Source hs) (n : ℕ)
    (file : List ℕ) (i : ℕ) (d : ReadPart S) : Type 0 where
  pub numbered : d.last_transmitted_block_number ≡ block i
  pub acknowledged : d.last_received_block_number ≡ block i
  pub sized : d.transmit_data_size ≡ n
  pub rest : source.rest d.handler ≡ drop (offset n i) file
  pub unfinished : d.last_data_packet_transmitted ≡ false

module _ (raw : RawData) {E S : Type 0} (hs : TransmitDataHandler S) (source : Source hs) (n : ℕ)
    (file : List ℕ) where
  -- What holds in any case, when the client has received `j` blocks.
  pub record IsKept (i j : ℕ) (s : State E S) : Type 0 where
    pub flight : in_flight s.trace ≡ some (transmitted raw n file i)
    pub bytes : s.transmit_packet ≡ transmitted raw n file i
    pub told : has_succeeded s.trace ≡ true → length file < offset n j
    pub faultless : (k : ℕ) → s.faults k ≡ false

  pub record IsServer (i j : ℕ) (s : State E S) : Type 0 where
    pub holds : IsKept i j s
    pub timed : IsTimed s.timing
    pub goes_on : IsOpen source n file i s.derived ⊎ ((s.receiving ≡ false) × (s.timing ≡ none))

  -- The client may receive more.
  pub IsServer-later :
      (i j k : ℕ) (s : State E S)
      → (length file < offset n j → length file < offset n k)
      → IsServer i j s
      → IsServer i k s
  IsServer-later i j k s more w = record {
    holds = record {
      flight = w.holds.flight;
      bytes = w.holds.bytes;
      told = λ e. more (w.holds.told e);
      faultless = w.holds.faultless;
    };
    timed = w.timed;
    goes_on = w.goes_on;
  }

  pub finished-IsServer :
      (i j : ℕ) (status : TransferStatus) (info : ErrorInformation) (s : State E S)
      → IsKept i j s
      → (status ≡ successful → length file < offset n j)
      → IsServer i j (finished (derived_finished hs) status info s)
  unfolding finished
  finished-IsServer i j status info s w short = record {
    holds = record {
      flight = in_flight-finished (s.is_open && s.has_completion_handler) status s.trace ∙ w.flight;
      bytes = w.bytes;
      told = λ e.
          elim (has_succeeded-finished (s.is_open && s.has_completion_handler) status s.trace e) [
            | inl before ↦ w.told before
            | inr now ↦ short now
          ];
      faultless = w.faultless;
    };
    timed = tt;
    goes_on = inr (refl, refl);
  }

  pub receive-IsServer :
      (i j : ℕ) (s : State E S)
      → IsKept i j s
      → IsOpen source n file i s.derived
      → IsServer i j (receive (derived_finished hs) s)
  unfolding receive
  receive-IsServer i j s w o = rw (w.faultless 0) (record {
    holds = record {
      flight = w.flight;
      bytes = w.bytes;
      told = w.told;
      faultless = λ k. w.faultless (suc k);
    };
    timed = tt;
    goes_on = inl o;
  })

  send-IsServer :
      (i j : ℕ) (q : Packet) (s : State E S)
      → encode raw q ≡ transmitted raw n file i
      → IsOpen source n file i s.derived
      → (has_succeeded s.trace ≡ true → length file < offset n j)
      → ((k : ℕ) → s.faults k ≡ false)
      → IsServer i j (receive (derived_finished hs) (send raw (derived_finished hs) q s))
  unfolding prepare in_flight has_succeeded
  send-IsServer i j q s bytes o told faultless =
      rw (send_faultless raw (derived_finished hs) q s (faultless 0)) (
        receive-IsServer i j _
          (record {
            flight = ap some bytes;
            bytes = bytes;
            told = told;
            faultless = λ k. faultless (suc k);
          })
          o)

  -- Block `i` is sent, and its acknowledgement awaited.
  pub send_data-IsServer :
      (i j : ℕ) (s : State E S)
      → IsReady source n file i s.derived
      → (has_succeeded s.trace ≡ true → length file < offset n j)
      → ((k : ℕ) → s.faults k ≡ false)
      → IsServer i j (receive (derived_finished hs) (send_data raw hs s))
  unfolding send_data next_block block increment
  send_data-IsServer i j s r told faultless =
      let d = s.derived in
      let packet : DataPacket = record {
        block_number = increment d.last_transmitted_block_number;
        contents = (hs.send_data d.handler d.transmit_data_size).0;
      } in
      let contents : packet.contents ≡ chunk n file i =
        source.send_data_lem d.handler d.transmit_data_size
        ∙ ap (λ m. take m (source.rest d.handler)) r.sized
        ∙ ap (take n) r.rest in
      let number : packet.block_number ≡ block (suc i) = ap increment r.numbered in
      let same : packet ≡ block_packet n file i =
        ap (λ (k : ℕ). record { block_number = k; contents = packet.contents }) number
        ∙ ap (λ (c : List ℕ). record { block_number = block (suc i); contents = c }) contents in
      let bytes : encode raw (Packet.data_block packet) ≡ transmitted raw n file i =
        ap (λ p. encode raw (Packet.data_block p)) same in
      send-IsServer i j (Packet.data_block packet) _ bytes
        (record {
          numbered = number;
          acknowledged = r.acknowledged;
          sized = r.sized;
          rest =
              source.rest_lem d.handler d.transmit_data_size
              ∙ ap (λ m. drop m (source.rest d.handler)) r.sized
              ∙ ap (drop n) r.rest
              ∙ drop-drop (offset n i) n file;
          last = λ e.
              chunk_short n file i (ground (arith, r.sized, r.unfinished, e, ap length contents));
        })
        told faultless
