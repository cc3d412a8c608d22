-- ===== src/Transfers/Download/Client.antt =====
-- What a client that reads a file keeps to while data packets of the file arrive and its timer expires.
pub mod Steps
use tftp_senior_design.Base.{
  ℕ, suc, refl, ap, inl, inr, true, false, not, Option, none, some, List, arith, ltb, if_elim,
  length, take, ◌<◌, ◌≡◌, ◌∙◌, ◌⊎◌, ◌&&◌, ◌++◌,
}
use tftp_senior_design.Tftp.{ReceiveDataHandler, TransferStatus, successful}
use tftp_senior_design.Tftp.Contracts.{Sink}
use tftp_senior_design.Network.{Network, Event, success, completed}
use tftp_senior_design.Helper.{RawData}
use tftp_senior_design.Packets.ErrorMessage.{ErrorInformation}
use tftp_senior_design.Packets.BlockNumber.{
  block, block-IsU16, next-ne, equal, differ, next, increment,
}
use tftp_senior_design.Packets.DataBlock.{DataPacket}
use tftp_senior_design.Packets.Handler
use tftp_senior_design.Packets.Packet.{Packet, encode}
use tftp_senior_design.Clients.Operation.{
  Operation, Input, arrives, expires, receive, receive_dally, finished, Receiver, receiver,
  first_receiver, Timer, transfer_timer, first_timer, dally_timer, send, prepare,
}
use tftp_senior_design.Clients.Operation
use tftp_senior_design.Clients.Operation.Inputs
use tftp_senior_design.Clients.Operation.Inputs.{
  arrive, expire, receive_handler, receive_first_handler, accept_source, retransmit,
  timeout_handler, timeout_first_handler,
}
use tftp_senior_design.Clients.ReadOperation.{ReadPart, State, derived_finished}
use tftp_senior_design.Clients.ReadOperation.Transfer.{
  ack, data_packet, after_ack, first_block, accept_block,
}
use tftp_senior_design.Clients.Operation.Sending.{send_faultless}
use tftp_senior_design.Clients.ReadOperation.Run.{handlers, packet, step}
use tftp_senior_design.Transfers.Blocks.{
  offset, chunk, take-append-take, chunk_short, chunk_fits, block_packet,
}
use tftp_senior_design.Transfers.Traces.{
  in_flight, has_succeeded, in_flight-finished, has_succeeded-finished,
}

module _ (raw : RawData) {E C : Type 0} (net : Network E) (peer : E) (hc : ReceiveDataHandler C)
    (sink : Sink hc) (n : ℕ) (file : List ℕ) where
  -- The acknowledgement of the first `j` blocks.
  abbrev pub acknowledged : ℕ → List ℕ
  acknowledged j = encode raw (ack (block j))

  -- What the timer would do is right: the acknowledgement would be sent again, or the file is complete.
  abbrev pub IsTimed : ℕ → List ℕ → Option (Timer × ℕ) → Type 0
  IsTimed j bytes none = Unit
  IsTimed j bytes (some (first_timer, seconds)) = Unit
  IsTimed j bytes (some (transfer_timer, seconds)) = bytes ≡ acknowledged j
  IsTimed j bytes (some (dally_timer, seconds)) = length file < offset n j

  -- The members of an operation that goes on.
  pub record IsOpen (j : ℕ) (d : ReadPart C) (remote : E) : Type 0 where
    pub numbered : d.last_received_block_number ≡ block j
    pub sized : d.receive_data_size ≡ n
    pub plain : d.option_negotiation_handler ≡ none
    pub live : sink.is_live d.handler ≡ true
    pub expected : net.same_address remote peer ≡ true

  -- What holds in any case when `j` blocks have been received.
  pub record IsKept (j : ℕ) (s : State E C) : Type 0 where
    pub kept : sink.got s.derived.handler ≡ take (offset n j) file
    pub told : has_succeeded s.trace ≡ true → length file < offset n j
    pub faultless : (k : ℕ) → s.faults k ≡ false

  pub record IsClient (j : ℕ) (s : State E C) : Type 0 where
    pub holds : IsKept j s
    pub flight : (in_flight s.trace ≡ none) ⊎ (in_flight s.trace ≡ some (acknowledged j))
    pub timed : IsTimed j s.transmit_packet s.timing
    pub goes_on : IsOpen j s.derived s.remote ⊎ ((s.receiving ≡ none) × (s.timing ≡ none))

  pub finished-IsClient :
      (j : ℕ) (status : TransferStatus) (info : ErrorInformation) (s : State E C)
      → IsKept j s
      → (in_flight s.trace ≡ none) ⊎ (in_flight s.trace ≡ some (acknowledged j))
      → (status ≡ successful → length file < offset n j)
      → IsClient j (finished (derived_finished hc) status info s)
  unfolding finished
  finished-IsClient j status info s w flight short = record {
    holds = record {
      kept = sink.finished_lem s.derived.handler ∙ w.kept;
      told = λ e.
          elim (has_succeeded-finished (s.is_open && s.has_completion_handler) status s.trace e) [
            | inl before ↦ w.told before
            | inr now ↦ short now
          ];
      faultless = w.faultless;
    };
    flight = rw (in_flight-finished (s.is_open && s.has_completion_handler) status s.trace) flight;
    timed = tt;
    goes_on = inr (refl, refl);
  }

  -- An acknowledgement has been sent after `j` blocks, the last of which has `size` bytes.
  after_ack-IsClient :
      (j size : ℕ) (s : State E C)
      → IsKept j s
      → IsOpen j s.derived s.remote
      → in_flight s.trace ≡ some (acknowledged j)
      → s.transmit_packet ≡ acknowledged j
      → (size < n → length file < offset n j)
      → IsClient j (after_ack raw hc size s)
  unfolding after_ack receive receive_dally
  after_ack-IsClient j size s w o flight last short =
      if_elim (IsClient j) (ltb size s.derived.receive_data_size) _ _
        (λ e.
          let done : length file < offset n j = short (ground (arith, o.sized, e)) in
          if_elim (IsClient j) s.derived.dally _ _
            (λ d. rw (w.faultless 0) (record {
              holds = record { kept = w.kept; told = w.told; faultless = λ k. w.faultless (suc k) };
              flight = inr flight;
              timed = done;
              goes_on = inl o;
            }))
            (λ d. finished-IsClient j successful none s w (inr flight) (λ e. done)))
        (λ e. rw (w.faultless 0) (record {
          holds = record { kept = w.kept; told = w.told; faultless = λ k. w.faultless (suc k) };
          flight = inr flight;
          timed = last;
          goes_on = inl o;
        }))

  -- The acknowledgement of `j` blocks is sent, and the operation goes on or ends.
  answer-IsClient :
      (j m size : ℕ) (s : State E C)
      → m ≡ block j
      → IsKept j s
      → IsOpen j s.derived s.remote
      → (size < n → length file < offset n j)
      → IsClient j (after_ack raw hc size (send raw (derived_finished hc) (ack m) s))
  unfolding prepare in_flight has_succeeded
  answer-IsClient j m size s e w o short =
      rw (e, send_faultless raw (derived_finished hc) (ack (block j)) s (w.faultless 0))
        (after_ack-IsClient j size _
          (record { kept = w.kept; told = w.told; faultless = λ k. w.faultless (suc k) }) o refl
          refl short)

  -- The block received last comes again.
  data_packet-again :
      (i : ℕ) (sender : E) (s : State E C)
      → IsKept (suc i) s
      → IsOpen (suc i) s.derived s.remote
      → IsClient (suc i) (data_packet raw hc sender (block_packet n file i) s)
  unfolding data_packet
  data_packet-again i sender s w o =
      let same : equal (block (suc i)) s.derived.last_received_block_number ≡ true =
        ground (arith, o.numbered) in
      rw (same, data_packet)
        (answer-IsClient (suc i) _ (length (chunk n file i)) s o.numbered w o
          (chunk_short n file i))

  -- The negotiation handler is not there.
  first_block-plain :
      (p : DataPacket) (s : State E C)
      → s.derived.option_negotiation_handler ≡ none
      → first_block raw hc p s ≡ accept_block raw hc p s
  unfolding first_block
  first_block-plain p s e =
      if_elim (λ t. t ≡ accept_block raw hc p s)
        (equal p.block_number 1 && not s.derived.oack_received) _ _ (λ h. simp e refl) (λ h. refl)

  -- The next block comes.
  data_packet-next :
      (i : ℕ) (sender : E) (s : State E C)
      → IsKept i s
      → IsOpen i s.derived s.remote
      → IsClient (suc i) (data_packet raw hc sender (block_packet n file i) s)
  unfolding data_packet accept_block block increment
  data_packet-next i sender s w o =
      let again : equal (block (suc i)) s.derived.last_received_block_number ≡ false =
        ground (arith, o.numbered, next-ne (block i) (block-IsU16 i)) in
      let wrong : differ (block (suc i)) (next s.derived.last_received_block_number) ≡ false =
        ground (arith, ap next o.numbered) in
      let big : ltb s.derived.receive_data_size (length (chunk n file i)) ≡ false =
        ground (arith, o.sized, chunk_fits n file i) in
      let taken = sink.received_data_lem s.derived.handler (chunk n file i) o.live in
      rw (again, data_packet)
        (rw (wrong, big)
          (rw (first_block-plain (block_packet n file i) s o.plain) (
            answer-IsClient (suc i) _ (length (chunk n file i)) _ (ap next o.numbered)
              (record {
                kept =
                    taken.0
                    ∙ ap (λ l. l ++ chunk n file i) w.kept
                    ∙ take-append-take (offset n i) n file;
                told = λ e. omega (arith, w.told e);
                faultless = w.faultless;
              })
              (record {
                numbered = ap next o.numbered;
                sized = o.sized;
                plain = o.plain;
                live = taken.1;
                expected = o.expected;
              })
              (chunk_short n file i))))

  -- `j` blocks have been received while block `i` is the one that was sent last.
  abbrev pub IsNear : ℕ → ℕ → Type 0
  IsNear i j = (j ≡ i) ⊎ (j ≡ suc i)

  pub data_packet-IsClient :
      (i j : ℕ) (sender : E) (s : State E C)
      → IsNear i j
      → IsKept j s
      → IsOpen j s.derived s.remote
      → IsClient (suc i) (data_packet raw hc sender (block_packet n file i) s)
  data_packet-IsClient i j sender s (inl e) w o = data_packet-next i sender s (rw⁻¹ e w) (rw⁻¹ e o)
  data_packet-IsClient i j sender s (inr e) w o = data_packet-again i sender s (rw⁻¹ e w) (rw⁻¹ e o)
