-- ===== src/Transfers/Upload/Client/Steps.antt =====
-- A client that sends a file: what happens when a packet arrives and when its timer expires.
use tftp_senior_design.Base.{
  ℕ, suc, refl, sym, ap, subst, inl, inr, Option, none, some, List, ltb, if_elim, Option-cases,
  subst, ◌≡◌, ◌∙◌, ◌⊎◌, ◌∷◌,
}
use tftp_senior_design.Tftp.{TransmitDataHandler}
use tftp_senior_design.Tftp.Contracts.{Source}
use tftp_senior_design.Network.{Network, Event, success}
use tftp_senior_design.Helper.{RawData}
use tftp_senior_design.Packets.BlockNumber.{block, block-IsU16}
use tftp_senior_design.Packets.Handler
use tftp_senior_design.Packets.Packet.{encode}
use tftp_senior_design.Clients.Operation.{
  Operation, arrives, expires, receive, finished, Receiver, receiver, first_receiver, Timer,
  transfer_timer, first_timer, dally_timer, send, prepare,
}
use tftp_senior_design.Clients.Operation
use tftp_senior_design.Clients.Operation.Inputs
use tftp_senior_design.Clients.Operation.Inputs.{
  arrive, expire, receive_handler, receive_first_handler, accept_source, retransmit,
  timeout_handler, timeout_first_handler,
}
use tftp_senior_design.Clients.WriteOperation.{State, derived_finished}
use tftp_senior_design.Clients.WriteOperation.Run.{handlers, packet, step}
use tftp_senior_design.Servers.WriteOperation.Transfer.{ack}
use tftp_senior_design.Transfers.Traces.{in_flight, has_succeeded}
use tftp_senior_design.Transfers.Upload.Client.{
  transmitted, IsTimed, IsOpen, finished-IsClient, IsClient, IsKept,
}
use tftp_senior_design.Transfers.Upload.Client.Acknowledgements.{
  acknowledgement-IsNext, counted-IsClient, IsNext,
}

module _ (raw : RawData) {E C : Type 0} (net : Network E) (peer : E) (hc : TransmitDataHandler C)
    (source : Source hc) (n : ℕ) (file : List ℕ) where
  packet-IsNext :
      (i j : ℕ) (sender : E) (s : State E C)
      → (j ≡ i) ⊎ (j ≡ suc i)
      → IsKept raw net peer hc source n file i j s
      → IsOpen source n file i s.derived
      → IsNext raw net peer hc source n file j (packet raw hc sender (encode raw (ack (block j))) s)
  unfolding packet
  packet-IsNext i j sender s near w o =
      let (k, later, done) =
        acknowledgement-IsNext raw net peer hc source n file i j sender s near w o in
      rw (Handler.packet-encode raw (handlers raw hc) sender (ack (block j)) s (block-IsU16 j))
        (k, later, counted-IsClient raw net peer hc source n file k j _ _ done)

  arrive-IsNext :
      (i j : ℕ) (s : State E C)
      → (j ≡ i) ⊎ (j ≡ suc i)
      → IsKept raw net peer hc source n file i j s
      → IsOpen source n file i s.derived
      → (r : Receiver) → s.receiving ≡ some r
      → IsNext raw net peer hc source n file j
          (step raw net hc (arrives success peer (encode raw (ack (block j)))) s)
  unfolding step Inputs.step arrive receive_handler receive_first_handler accept_source in_flight
      has_succeeded
  arrive-IsNext i j s near w o receiver e =
      rw (e, Inputs.step)
        (packet-IsNext i j s.receive_endpoint _ near
          (record {
            flight = w.flight;
            bytes = w.bytes;
            told = w.told;
            faultless = w.faultless;
            expected = w.expected;
          })
          o)
  arrive-IsNext i j s near w o first_receiver e =
      rw (e, Inputs.step)
        (rw (w.expected, w.faultless 0)
          (packet-IsNext i j peer _ near
            (record {
              flight = w.flight;
              bytes = w.bytes;
              told = w.told;
              faultless = λ k. w.faultless (suc k);
              expected = w.expected;
            })
            o))

  pub arrive_unheard :
      (bytes : List ℕ) (s : State E C)
      → s.receiving ≡ none
      → step raw net hc (arrives success peer bytes) s ≡ s
  unfolding step Inputs.step arrive
  arrive_unheard bytes s e =
      let unheard = record s { receiving = none } in
      ap
        (λ (r : Option Receiver). elim r [
          | none ↦ s
          | some first_receiver ↦
              receive_first_handler raw net (derived_finished hc) (packet raw hc) success peer bytes
                unheard
          | some receiver ↦
              receive_handler raw net (derived_finished hc) (packet raw hc) success bytes unheard
        ])
        e

  -- The last acknowledgement of the server arrives.
  pub to_client-IsClient :
      (i j : ℕ) (s : State E C)
      → (j ≡ i) ⊎ (j ≡ suc i)
      → IsClient raw net peer hc source n file i j s
      → IsNext raw net peer hc source n file j
          (step raw net hc (arrives success peer (encode raw (ack (block j)))) s)
  to_client-IsClient i j s near w = elim (Option-cases s.receiving) [
    | inl e ↦ rw (arrive_unheard (encode raw (ack (block j))) s e) (i, near, w)
    | inr (r, e) ↦ elim w.goes_on [
      | inl o ↦ arrive-IsNext i j s near w.holds o r e
      | inr (closed, _) ↦ rw (arrive_unheard (encode raw (ack (block j))) s closed) (i, near, w)
    ]
  ]

  retransmit-IsClient :
      (i j : ℕ) (event : Event E) (timer : Timer) (s : State E C)
      → IsKept raw net peer hc source n file i j s
      → IsOpen source n file i s.derived
      → in_flight (event ∷ s.trace) ≡ some (transmitted raw n file i)
      → has_succeeded (event ∷ s.trace) ≡ has_succeeded s.trace
      → IsTimed (some (timer, s.receive_timeout))
      → IsClient raw net peer hc source n file i j
          (retransmit raw (derived_finished hc) event timer s)
  unfolding retransmit
  retransmit-IsClient i j event timer s w o later same timed =
      if_elim (IsClient raw net peer hc source n file i j) (ltb s.tftp_retries s.transmit_counter) _
        _ (λ e. finished-IsClient raw net peer hc source n file i j _ none s w (λ e. cc))
        (λ e. rw (w.faultless 0) (record {
          holds = record {
            flight = later;
            bytes = w.bytes;
            told = λ e. w.told (sym same ∙ e);
            faultless = λ k. w.faultless (suc k);
            expected = w.expected;
          };
          timed = timed;
          goes_on = inl o;
        }))

  pub expire_idle : (s : State E C) → s.timing ≡ none → step raw net hc (expires success) s ≡ s
  unfolding step Inputs.step expire
  expire_idle s e =
      let idle = record s { timing = none } in
      ap
        (λ (t : Option (Timer × ℕ)). elim t [
          | none ↦ s
          | some (first_timer, seconds) ↦
              timeout_first_handler raw (derived_finished hc) success idle
          | some (transfer_timer, seconds) ↦ timeout_handler raw (derived_finished hc) success idle
          | some (dally_timer, seconds) ↦
              Operation.timeout_dally_handler (derived_finished hc) success idle
        ])
        e

  -- The timer has no part in it.
  still :
      (i j : ℕ) (s : State E C)
      → IsKept raw net peer hc source n file i j s
      → IsKept raw net peer hc source n file i j (record s { timing = none })
  still i j s w = record {
    flight = w.flight;
    bytes = w.bytes;
    told = w.told;
    faultless = w.faultless;
    expected = w.expected;
  }

  expire-IsClient :
      (i j seconds : ℕ) (s : State E C)
      → IsClient raw net peer hc source n file i j s
      → IsOpen source n file i s.derived
      → (timer : Timer) → IsTimed (some (timer, seconds))
      → s.timing ≡ some (timer, seconds)
      → IsClient raw net peer hc source n file i j (step raw net hc (expires success) s)
  unfolding step Inputs.step expire timeout_handler timeout_first_handler in_flight has_succeeded
  expire-IsClient i j seconds s w o first_timer timed e =
      rw (e, Inputs.step)
        (retransmit-IsClient i j _ first_timer _ (still i j s w.holds) o w.holds.flight refl tt)
  expire-IsClient i j seconds s w o transfer_timer timed e =
      rw (e, Inputs.step)
        (retransmit-IsClient i j _ transfer_timer _ (still i j s w.holds) o (ap some w.holds.bytes)
          refl tt)
  expire-IsClient i j seconds s w o dally_timer timed e = elim timed [ ]

  -- A timeout sends the block again, or the operation ends.
  pub timeout-IsClient :
      (i j : ℕ) (s : State E C)
      → IsClient raw net peer hc source n file i j s
      → IsClient raw net peer hc source n file i j (step raw net hc (expires success) s)
  timeout-IsClient i j s w = elim (Option-cases s.timing) [
    | inl e ↦ rw (expire_idle s e) w
    | inr ((timer, seconds), e) ↦ elim w.goes_on [
      | inl o ↦ expire-IsClient i j seconds s w o timer (subst IsTimed e w.timed) e
      | inr (_, idle) ↦ rw (expire_idle s idle) w
    ]
  ]
