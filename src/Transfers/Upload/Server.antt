-- ===== src/Transfers/Upload/Server.antt =====
-- What a server that receives a file keeps to while data packets of the file arrive and its timer
-- expires.
pub mod Steps
use tftp_senior_design.Base.{
  ℕ, suc, refl, ap, inl, inr, true, false, Option, none, some, List, arith, ltb, if_elim, length,
  take, ◌<◌, ◌≡◌, ◌∙◌, ◌⊎◌, ◌&&◌, ◌++◌,
}
use tftp_senior_design.Tftp.{ReceiveDataHandler, TransferStatus, successful}
use tftp_senior_design.Tftp.Contracts.{Sink}
use tftp_senior_design.Network.{success}
use tftp_senior_design.Helper.{RawData}
use tftp_senior_design.Packets.ErrorMessage.{ErrorInformation}
use tftp_senior_design.Packets.BlockNumber.{
  block, block-IsU16, next-ne, equal, differ, next, increment,
}
use tftp_senior_design.Packets.Handler
use tftp_senior_design.Packets.Packet.{Packet, encode}
use tftp_senior_design.Servers.Operation.{
  Operation, receive, receive_dally, finished, Timer, transfer_timer, dally_timer, send, prepare,
}
use tftp_senior_design.Servers.Operation
use tftp_senior_design.Servers.Operation.Inputs
use tftp_senior_design.Servers.Operation.Inputs.{
  arrives, expires, arrive, expire, receive_handler, retransmit, timeout_handler,
  timeout_dally_handler,
}
use tftp_senior_design.Servers.Operation.Sending.{send_faultless}
use tftp_senior_design.Servers.WriteOperation.{WritePart, State, derived_finished}
use tftp_senior_design.Servers.WriteOperation.Transfer.{ack, data_packet, after_ack, accept_block}
use tftp_senior_design.Servers.WriteOperation.Run.{handlers, packet, step}
use tftp_senior_design.Transfers.Blocks.{
  offset, chunk, take-append-take, chunk_short, chunk_fits, block_packet,
}
use tftp_senior_design.Transfers.Traces.{
  in_flight, has_succeeded, in_flight-finished, has_succeeded-finished,
}

-- The acknowledgement of the first `j` blocks.
abbrev pub acknowledged : RawData → ℕ → List ℕ
acknowledged raw j = encode raw (ack (block j))

-- The operation dallies only when the file is complete.
abbrev pub IsTimed : ℕ → List ℕ → ℕ → Option (Timer × ℕ) → Type 0
IsTimed n file j none = Unit
IsTimed n file j (some (transfer_timer, seconds)) = Unit
IsTimed n file j (some (dally_timer, seconds)) = length file < offset n j

-- The members of an operation that goes on.
pub record IsOpen {C : Type 0} {hc : ReceiveDataHandler C} (sink : Sink hc) (n j : ℕ)
    (d : WritePart C) : Type 0 where
  pub numbered : d.last_received_block_number ≡ block j
  pub sized : d.receive_data_size ≡ n
  pub live : sink.is_live d.handler ≡ true

module _ (raw : RawData) {E C : Type 0} (hc : ReceiveDataHandler C) (sink : Sink hc) (n : ℕ)
    (file : List ℕ) where
  -- What was received, and what was said of it, when `j` blocks have come.
  pub record IsKept (j : ℕ) (s : State E C) : Type 0 where
    pub kept : sink.got s.derived.handler ≡ take (offset n j) file
    pub told : has_succeeded s.trace ≡ true → length file < offset n j
    pub faultless : (k : ℕ) → s.faults k ≡ false

  -- The last packet is the acknowledgement.
  pub record IsAnswered (j : ℕ) (s : State E C) : Type 0 where
    pub flight : in_flight s.trace ≡ some (acknowledged raw j)
    pub bytes : s.transmit_packet ≡ acknowledged raw j

  pub record IsServer (j : ℕ) (s : State E C) : Type 0 where
    pub holds : IsKept j s
    pub answered : IsAnswered j s
    pub timed : IsTimed n file j s.timing
    pub goes_on : IsOpen sink n j s.derived ⊎ ((s.receiving ≡ false) × (s.timing ≡ none))

  pub finished-IsServer :
      (j : ℕ) (status : TransferStatus) (info : ErrorInformation) (s : State E C)
      → IsKept j s
      → IsAnswered j s
      → (status ≡ successful → length file < offset n j)
      → IsServer j (finished (derived_finished hc) status info s)
  unfolding finished
  finished-IsServer j status info s w a short = record {
    holds = record {
      kept = sink.finished_lem s.derived.handler ∙ w.kept;
      told = λ e.
          elim (has_succeeded-finished (s.is_open && s.has_completion_handler) status s.trace e) [
            | inl before ↦ w.told before
            | inr now ↦ short now
          ];
      faultless = w.faultless;
    };
    answered = record {
      flight = in_flight-finished (s.is_open && s.has_completion_handler) status s.trace ∙ a.flight;
      bytes = a.bytes;
    };
    timed = tt;
    goes_on = inr (refl, refl);
  }

  pub receive-IsServer :
      (j : ℕ) (s : State E C)
      → IsKept j s
      → IsAnswered j s
      → IsOpen sink n j s.derived
      → IsServer j (receive (derived_finished hc) s)
  unfolding receive
  receive-IsServer j s w a o = rw (w.faultless 0) (record {
    holds = record { kept = w.kept; told = w.told; faultless = λ k. w.faultless (suc k) };
    answered = record { flight = a.flight; bytes = a.bytes };
    timed = tt;
    goes_on = inl o;
  })

  -- An acknowledgement has been sent after `j` blocks, the last of which has `size` bytes.
  after_ack-IsServer :
      (j size : ℕ) (s : State E C)
      → IsKept j s
      → IsAnswered j s
      → IsOpen sink n j s.derived
      → (size < n → length file < offset n j)
      → IsServer j (after_ack raw hc size s)
  unfolding after_ack receive_dally
  after_ack-IsServer j size s w a o short =
      if_elim (IsServer j) (ltb size s.derived.receive_data_size) _ _
        (λ e.
          let done : length file < offset n j = short (ground (arith, o.sized, e)) in
          if_elim (IsServer j) s.derived.dally _ _
            (λ d. rw (w.faultless 0) (record {
              holds = record { kept = w.kept; told = w.told; faultless = λ k. w.faultless (suc k) };
              answered = record { flight = a.flight; bytes = a.bytes };
              timed = done;
              goes_on = inl o;
            }))
            (λ d. finished-IsServer j successful none s w a (λ e. done)))
        (λ e. receive-IsServer j s w a o)

  -- The acknowledgement of `j` blocks is sent, and the operation goes on or ends.
  answer-IsServer :
      (j m size : ℕ) (s : State E C)
      → m ≡ block j
      → IsKept j s
      → IsOpen sink n j s.derived
      → (size < n → length file < offset n j)
      → IsServer j (after_ack raw hc size (send raw (derived_finished hc) (ack m) s))
  unfolding prepare in_flight has_succeeded
  answer-IsServer j m size s e w o short =
      rw (e, send_faultless raw (derived_finished hc) (ack (block j)) s (w.faultless 0))
        (after_ack-IsServer j size _
          (record { kept = w.kept; told = w.told; faultless = λ k. w.faultless (suc k) })
          (record { flight = refl; bytes = refl }) o short)

  -- The block received last comes again.
  data_packet-again :
      (i : ℕ) (sender : E) (s : State E C)
      → IsKept (suc i) s
      → IsOpen sink n (suc i) s.derived
      → IsServer (suc i) (data_packet raw hc sender (block_packet n file i) s)
  unfolding data_packet
  data_packet-again i sender s w o =
      let same : equal (block (suc i)) s.derived.last_received_block_number ≡ true =
        ground (arith, o.numbered) in
      rw (same, data_packet)
        (answer-IsServer (suc i) _ (length (chunk n file i)) s o.numbered w o
          (chunk_short n file i))

  -- The next block comes.
  data_packet-next :
      (i : ℕ) (sender : E) (s : State E C)
      → IsKept i s
      → IsOpen sink n i s.derived
      → IsServer (suc i) (data_packet raw hc sender (block_packet n file i) s)
  unfolding data_packet accept_block block increment
  data_packet-next i sender s w o =
      let again : equal (block (suc i)) s.derived.last_received_block_number ≡ false =
        ground (arith, o.numbered, next-ne (block i) (block-IsU16 i)) in
      let wrong : differ (block (suc i)) (next s.derived.last_received_block_number) ≡ false =
        ground (arith, ap next o.numbered) in
      let big : ltb s.derived.receive_data_size (length (chunk n file i)) ≡ false =
        ground (arith, o.sized, chunk_fits n file i) in
      let taken = sink.received_data_lem s.derived.handler (chunk n file i) o.live in
      rw (again, data_packet)
        (rw (wrong, big)
          (answer-IsServer (suc i) _ (length (chunk n file i)) _ (ap next o.numbered)
            (record {
              kept =
                  taken.0
                  ∙ ap (λ l. l ++ chunk n file i) w.kept
                  ∙ take-append-take (offset n i) n file;
              told = λ e. omega (arith, w.told e);
              faultless = w.faultless;
            })
            (record { numbered = ap next o.numbered; sized = o.sized; live = taken.1 })
            (chunk_short n file i)))

  pub data_packet-IsServer :
      (i j : ℕ) (sender : E) (s : State E C)
      → (j ≡ i) ⊎ (j ≡ suc i)
      → IsKept j s
      → IsOpen sink n j s.derived
      → IsServer (suc i) (data_packet raw hc sender (block_packet n file i) s)
  data_packet-IsServer i j sender s (inl e) w o = data_packet-next i sender s (rw⁻¹ e w) (rw⁻¹ e o)
  data_packet-IsServer i j sender s (inr e) w o = data_packet-again i sender s (rw⁻¹ e w) (rw⁻¹ e o)
