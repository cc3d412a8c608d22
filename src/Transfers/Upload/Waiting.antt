-- ===== src/Transfers/Upload/Waiting.antt =====
-- What a client that sends a file keeps to until the server has answered its request.
use tftp_senior_design.Base.{
  ℕ, suc, refl, subst, inl, inr, true, false, Option, none, some, List, arith, ltb, if_elim,
  Option-cases, subst, ◌≡◌, ◌∙◌, ◌⊎◌, ◌&&◌,
}
use tftp_senior_design.Tftp.{TransmitDataHandler, communication_error}
use tftp_senior_design.Tftp.Contracts.{Source}
use tftp_senior_design.Network.{Network, success}
use tftp_senior_design.Helper.{RawData}
use tftp_senior_design.Packets.BlockNumber.{block, block-IsU16, equal, differ}
use tftp_senior_design.Packets.Acknowledgement.{AcknowledgementPacket}
use tftp_senior_design.Packets.Handler
use tftp_senior_design.Packets.Packet.{encode}
use tftp_senior_design.Clients.Operation.{
  arrives, expires, finished, Receiver, receiver, first_receiver, Timer, transfer_timer,
  first_timer, dally_timer,
}
use tftp_senior_design.Clients.Operation.Inputs
use tftp_senior_design.Clients.Operation.Inputs.{
  arrive, expire, receive_handler, receive_first_handler, accept_source, retransmit,
  timeout_first_handler,
}
use tftp_senior_design.Clients.WriteOperation.{WritePart, State, derived_finished}
use tftp_senior_design.Clients.WriteOperation.Transfer.{
  continue_transfer, acknowledged, acknowledgement_packet,
}
use tftp_senior_design.Clients.WriteOperation.Run.{handlers, packet, step}
use tftp_senior_design.Servers.WriteOperation.Transfer.{ack}
use tftp_senior_design.Transfers.Traces.{
  in_flight, has_succeeded, in_flight-finished, has_succeeded-finished,
}
use tftp_senior_design.Transfers.Upload.Client.{IsClient, send_data-IsClient}
use tftp_senior_design.Transfers.Upload.Client.Acknowledgements.{
  acknowledged-plain, counted-IsClient,
}
use tftp_senior_design.Transfers.Upload.Client.Steps.{arrive_unheard, expire_idle}

-- The timer sends the request again.
abbrev IsFirst : Option (Timer × ℕ) → Type 0
IsFirst none = Unit
IsFirst (some (first_timer, seconds)) = Unit
IsFirst (some (transfer_timer, seconds)) = ⊥
IsFirst (some (dally_timer, seconds)) = ⊥

-- The members before the first acknowledgement.
pub record IsPrepared {C : Type 0} {hc : TransmitDataHandler C} (source : Source hc) (n : ℕ)
    (file : List ℕ) (d : WritePart C) : Type 0 where
  pub numbered : d.last_transmitted_block_number ≡ 0
  pub received : d.last_received_block_number ≡ 0xffff
  pub sized : d.transmit_data_size ≡ n
  pub plain : d.option_negotiation_handler ≡ none
  pub rest : source.rest d.handler ≡ file
  pub unfinished : d.last_data_packet_transmitted ≡ false

module _ (raw : RawData) {E C : Type 0} (net : Network E) (peer : E) (hc : TransmitDataHandler C)
    (source : Source hc) (n : ℕ) (file : List ℕ) where
  pub record IsUnanswered (s : State E C) : Type 0 where
    pub flight : in_flight s.trace ≡ none
    pub silent : has_succeeded s.trace ≡ true → ⊥
    pub faultless : (k : ℕ) → s.faults k ≡ false
    pub expected : net.same_address s.remote peer ≡ true

  pub record IsWaiting (s : State E C) : Type 0 where
    pub holds : IsUnanswered s
    pub timed : IsFirst s.timing
    pub goes_on : IsPrepared source n file s.derived ⊎ ((s.receiving ≡ none) × (s.timing ≡ none))

  failed-IsWaiting :
      (s : State E C)
      → IsUnanswered s
      → IsWaiting (finished (derived_finished hc) communication_error none s)
  unfolding finished
  failed-IsWaiting s w = record {
    holds = record {
      flight =
          in_flight-finished (s.is_open && s.has_completion_handler) communication_error s.trace
          ∙ w.flight;
      silent = λ e.
          elim (has_succeeded-finished (s.is_open && s.has_completion_handler) communication_error
            s.trace e) [ inl before ↦ w.silent before | inr now ↦ cc ];
      faultless = w.faultless;
      expected = w.expected;
    };
    timed = tt;
    goes_on = inr (refl, refl);
  }

  started :
      (p : AcknowledgementPacket) (t : State E C)
      → t.derived.option_negotiation_handler ≡ none
      → IsClient raw net peer hc source n file 0 0 (continue_transfer raw hc t)
      → IsClient raw net peer hc source n file 0 0 (acknowledged raw hc p t)
  started p t e v = rw (acknowledged-plain raw net peer hc source n file p t e) v

  continued :
      (s : State E C)
      → IsUnanswered s
      → IsPrepared source n file s.derived
      → IsClient raw net peer hc source n file 0 0 (
          continue_transfer raw hc
            (record s { derived = record s.derived { last_received_block_number = 0 } }))
  unfolding continue_transfer block
  continued s w o =
      if_elim (IsClient raw net peer hc source n file 0 0) s.derived.last_data_packet_transmitted _
        _ (λ e. cc)
        (λ e.
          send_data-IsClient raw net peer hc source n file 0 0 _
            (record {
              numbered = o.numbered;
              received = refl;
              sized = o.sized;
              plain = o.plain;
              rest = o.rest;
              unfinished = o.unfinished;
            })
            (λ e. elim (w.silent e) [ ]) w.faultless w.expected)

  -- The acknowledgement of block 0 makes the client send the first block.
  acknowledgement-first :
      (sender : E) (s : State E C)
      → IsUnanswered s
      → IsPrepared source n file s.derived
      → IsClient raw net peer hc source n file 0 0
          (acknowledgement_packet raw hc sender (record { block_number = block 0 }) s)
  unfolding acknowledgement_packet block
  acknowledgement-first sender s w o =
      let again : equal (block 0) s.derived.last_received_block_number ≡ false =
        ground (arith, o.received) in
      let wrong : differ (block 0) s.derived.last_transmitted_block_number ≡ false =
        ground (arith, o.numbered) in
      rw (again, acknowledgement_packet) (rw wrong (started _ _ o.plain (continued s w o)))

  packet-first :
      (sender : E) (s : State E C)
      → IsUnanswered s
      → IsPrepared source n file s.derived
      → IsClient raw net peer hc source n file 0 0
          (packet raw hc sender (encode raw (ack (block 0))) s)
  unfolding packet
  packet-first sender s w o =
      rw (Handler.packet-encode raw (handlers raw hc) sender (ack (block 0)) s (block-IsU16 0)) (
        counted-IsClient raw net peer hc source n file 0 0 _ _ (acknowledgement-first sender s w o))

  arrive-first :
      (s : State E C)
      → IsUnanswered s
      → IsPrepared source n file s.derived
      → (r : Receiver) → s.receiving ≡ some r
      → IsClient raw net peer hc source n file 0 0
          (step raw net hc (arrives success peer (encode raw (ack (block 0)))) s)
  unfolding step Inputs.step arrive receive_handler receive_first_handler accept_source in_flight
      has_succeeded
  arrive-first s w o receiver e =
      rw (e, Inputs.step)
        (packet-first s.receive_endpoint _
          (record {
            flight = w.flight;
            silent = w.silent;
            faultless = w.faultless;
            expected = w.expected;
          })
          o)
  arrive-first s w o first_receiver e =
      rw (e, Inputs.step)
        (rw (w.expected, w.faultless 0)
          (packet-first peer _
            (record {
              flight = w.flight;
              silent = w.silent;
              faultless = λ k. w.faultless (suc k);
              expected = w.expected;
            })
            o))

  -- The answer of the server makes the client send the first block, unless it has ended.
  pub to_client-IsWaiting :
      (s : State E C)
      → IsWaiting s
      → IsWaiting (step raw net hc (arrives success peer (encode raw (ack (block 0)))) s)
        ⊎ IsClient raw net peer hc source n file 0 0
            (step raw net hc (arrives success peer (encode raw (ack (block 0)))) s)
  to_client-IsWaiting s w = elim (Option-cases s.receiving) [
    | inl e ↦
        inl (rw (arrive_unheard raw net peer hc source n file (encode raw (ack (block 0))) s e) w)
    | inr (r, e) ↦ elim w.goes_on [
      | inl o ↦ inr (arrive-first s w.holds o r e)
      | inr (closed, _) ↦ inl (
          rw (arrive_unheard raw net peer hc source n file (encode raw (ack (block 0))) s closed) w)
    ]
  ]

  expire-IsWaiting :
      (seconds : ℕ) (s : State E C)
      → IsWaiting s
      → IsPrepared source n file s.derived
      → (timer : Timer) → IsFirst (some (timer, seconds))
      → s.timing ≡ some (timer, seconds)
      → IsWaiting (step raw net hc (expires success) s)
  unfolding step Inputs.step expire timeout_first_handler retransmit in_flight has_succeeded
  expire-IsWaiting seconds s w o first_timer timed e =
      rw (e, Inputs.step)
        (if_elim IsWaiting (ltb s.tftp_retries s.transmit_counter) _ _
          (λ _. failed-IsWaiting _ (record {
            flight = w.holds.flight;
            silent = w.holds.silent;
            faultless = w.holds.faultless;
            expected = w.holds.expected;
          }))
          (λ _. rw (w.holds.faultless 0) (record {
            holds = record {
              flight = w.holds.flight;
              silent = w.holds.silent;
              faultless = λ k. w.holds.faultless (suc k);
              expected = w.holds.expected;
            };
            timed = tt;
            goes_on = inl o;
          })))
  expire-IsWaiting seconds s w o transfer_timer timed e = elim timed [ ]
  expire-IsWaiting seconds s w o dally_timer timed e = elim timed [ ]

  -- A timeout sends the request again, or the operation ends.
  pub timeout-IsWaiting :
      (s : State E C) → IsWaiting s → IsWaiting (step raw net hc (expires success) s)
  timeout-IsWaiting s w = elim (Option-cases s.timing) [
    | inl e ↦ rw (expire_idle raw net peer hc source n file s e) w
    | inr ((timer, seconds), e) ↦ elim w.goes_on [
      | inl o ↦ expire-IsWaiting seconds s w o timer (subst IsFirst e w.timed) e
      | inr (_, idle) ↦ rw (expire_idle raw net peer hc source n file s idle) w
    ]
  ]
