-- ===== src/Transfers/Download/Client/Steps.antt =====
-- A client that reads a file: what happens when a packet arrives and when its timer expires.
use tftp_senior_design.Base.{
  ℕ, suc, refl, sym, ap, subst, inl, inr, Option, none, some, List, ltb, if_elim, Option-cases,
  subst, ◌≡◌, ◌∙◌, ◌⊎◌, ◌∷◌,
}
use tftp_senior_design.Tftp.{ReceiveDataHandler, successful}
use tftp_senior_design.Tftp.Contracts.{Sink}
use tftp_senior_design.Network.{Network, Event, success}
use tftp_senior_design.Helper.{RawData}
use tftp_senior_design.Packets.BlockNumber.{block-IsU16}
use tftp_senior_design.Packets.Handler
use tftp_senior_design.Packets.Packet.{Packet, encode}
use tftp_senior_design.Clients.Operation.{
  Operation, Input, arrives, expires, receive, receive_dally, finished, Receiver, receiver,
  first_receiver, Timer, transfer_timer, first_timer, dally_timer, send, prepare,
}
use tftp_senior_design.Clients.Operation
use tftp_senior_design.Clients.Operation.Inputs
use tftp_senior_design.Clients.Operation.Inputs.{
  arrive, expire, receive_handler, receive_first_handler, accept_source, retransmit,
  timeout_handler, timeout_first_handler,
}
use tftp_senior_design.Clients.ReadOperation.{State, derived_finished}
use tftp_senior_design.Clients.ReadOperation.Run.{handlers, packet, step}
use tftp_senior_design.Transfers.Blocks.{block_packet}
use tftp_senior_design.Transfers.Traces.{in_flight, has_succeeded}
use tftp_senior_design.Transfers.Download.Client.{
  data_packet-IsClient, finished-IsClient, acknowledged, IsClient, IsTimed, IsNear, IsOpen, IsKept,
}

module _ (raw : RawData) {E C : Type 0} (net : Network E) (peer : E) (hc : ReceiveDataHandler C)
    (sink : Sink hc) (n : ℕ) (file : List ℕ) where
  packet-IsClient :
      (i j : ℕ) (sender : E) (s : State E C)
      → IsNear raw net peer hc sink n file i j
      → IsKept raw net peer hc sink n file j s
      → IsOpen raw net peer hc sink n file j s.derived s.remote
      → IsClient raw net peer hc sink n file
          (suc i)
          (packet raw hc sender (encode raw (Packet.data_block (block_packet n file i))) s)
  unfolding packet
  packet-IsClient i j sender s near w o =
      let done = data_packet-IsClient raw net peer hc sink n file i j sender s near w o in
      rw
        (Handler.packet-encode raw (handlers raw hc) sender
          (Packet.data_block (block_packet n file i)) s (block-IsU16 (suc i)))
        (record {
          holds = record {
            kept = done.holds.kept;
            told = done.holds.told;
            faultless = done.holds.faultless;
          };
          flight = done.flight;
          timed = done.timed;
          goes_on = done.goes_on;
        })

  -- Block `i` arrives at an operation that goes on.
  arrive-IsClient :
      (i j : ℕ) (s : State E C)
      → IsNear raw net peer hc sink n file i j
      → IsKept raw net peer hc sink n file j s
      → IsOpen raw net peer hc sink n file j s.derived s.remote
      → (r : Receiver) → s.receiving ≡ some r
      → IsClient raw net peer hc sink n file (suc i) (
          step raw net hc
            (arrives success peer (encode raw (Packet.data_block (block_packet n file i))))
            s)
  unfolding step Inputs.step arrive receive_handler receive_first_handler accept_source
      has_succeeded
  arrive-IsClient i j s near w o receiver e =
      rw (e, Inputs.step)
        (packet-IsClient i j s.receive_endpoint _ near
          (record { kept = w.kept; told = w.told; faultless = w.faultless }) o)
  arrive-IsClient i j s near w o first_receiver e =
      rw (e, Inputs.step)
        (rw (o.expected, w.faultless 0)
          (packet-IsClient i j peer _ near
            (record { kept = w.kept; told = w.told; faultless = λ k. w.faultless (suc k) }) o))

  arrive_unheard :
      (bytes : List ℕ) (s : State E C)
      → s.receiving ≡ none
      → step raw net hc (arrives success peer bytes) s ≡ s
  unfolding step Inputs.step arrive
  arrive_unheard bytes s e =
      let unheard = record s { receiving = none } in
      ap
        (λ (r : Option Receiver). elim r [
          | none ↦ s
          | some first_receiver ↦
              receive_first_handler raw net (derived_finished hc) (packet raw hc) success peer bytes
                unheard
          | some receiver ↦
              receive_handler raw net (derived_finished hc) (packet raw hc) success bytes unheard
        ])
        e

  -- However far the client is, after block `i` of the file it has received `i + 1` blocks, or it is as
  -- before.
  pub to_client-IsClient :
      (i j : ℕ) (s : State E C)
      → IsNear raw net peer hc sink n file i j
      → IsClient raw net peer hc sink n file j s
      → IsClient raw net peer hc sink n file (suc i) (
          step raw net hc
            (arrives success peer (encode raw (Packet.data_block (block_packet n file i))))
            s)
        ⊎ IsClient raw net peer hc sink n file j (
            step raw net hc
              (arrives success peer (encode raw (Packet.data_block (block_packet n file i))))
              s)
  to_client-IsClient i j s near w = elim (Option-cases s.receiving) [
    | inl e ↦
        inr (rw (arrive_unheard (encode raw (Packet.data_block (block_packet n file i))) s e) w)
    | inr (r, e) ↦ elim w.goes_on [
      | inl o ↦ inl (arrive-IsClient i j s near w.holds o r e)
      | inr (closed, _) ↦
          inr (
            rw (arrive_unheard (encode raw (Packet.data_block (block_packet n file i))) s closed) w)
    ]
  ]

  retransmit-IsClient :
      (j : ℕ) (event : Event E) (timer : Timer) (s : State E C)
      → IsKept raw net peer hc sink n file j s
      → IsOpen raw net peer hc sink n file j s.derived s.remote
      → (in_flight s.trace ≡ none)
        ⊎ (in_flight s.trace ≡ some (acknowledged raw net peer hc sink n file j))
      → (in_flight (event ∷ s.trace) ≡ none)
        ⊎ (in_flight (event ∷ s.trace) ≡ some (acknowledged raw net peer hc sink n file j))
      → has_succeeded (event ∷ s.trace) ≡ has_succeeded s.trace
      → IsTimed raw net peer hc sink n file j s.transmit_packet (some (timer, s.receive_timeout))
      → IsClient raw net peer hc sink n file j (retransmit raw (derived_finished hc) event timer s)
  unfolding retransmit
  retransmit-IsClient j event timer s w o flight later same timed =
      if_elim (IsClient raw net peer hc sink n file j) (ltb s.tftp_retries s.transmit_counter) _ _
        (λ e. finished-IsClient raw net peer hc sink n file j _ none s w flight (λ e. cc))
        (λ e. rw (w.faultless 0) (record {
          holds = record {
            kept = w.kept;
            told = λ e. w.told (sym same ∙ e);
            faultless = λ k. w.faultless (suc k);
          };
          flight = later;
          timed = timed;
          goes_on = inl o;
        }))

  expire_idle : (s : State E C) → s.timing ≡ none → step raw net hc (expires success) s ≡ s
  unfolding step Inputs.step expire
  expire_idle s e =
      let idle = record s { timing = none } in
      ap
        (λ (t : Option (Timer × ℕ)). elim t [
          | none ↦ s
          | some (first_timer, seconds) ↦
              timeout_first_handler raw (derived_finished hc) success idle
          | some (transfer_timer, seconds) ↦ timeout_handler raw (derived_finished hc) success idle
          | some (dally_timer, seconds) ↦
              Operation.timeout_dally_handler (derived_finished hc) success idle
        ])
        e

  -- The timer has no part in it.
  still :
      (j : ℕ) (s : State E C)
      → IsKept raw net peer hc sink n file j s
      → IsKept raw net peer hc sink n file j (record s { timing = none })
  still j s w = record { kept = w.kept; told = w.told; faultless = w.faultless }

  expire-IsClient :
      (j seconds : ℕ) (s : State E C)
      → IsClient raw net peer hc sink n file j s
      → IsOpen raw net peer hc sink n file j s.derived s.remote
      → (timer : Timer)
      → IsTimed raw net peer hc sink n file j s.transmit_packet (some (timer, seconds))
      → s.timing ≡ some (timer, seconds)
      → IsClient raw net peer hc sink n file j (step raw net hc (expires success) s)
  unfolding step Inputs.step expire timeout_handler timeout_first_handler
      Operation.timeout_dally_handler in_flight has_succeeded
  expire-IsClient j seconds s w o first_timer timed e =
      rw (e, Inputs.step)
        (retransmit-IsClient j _ first_timer _ (still j s w.holds) o w.flight w.flight refl tt)
  expire-IsClient j seconds s w o transfer_timer timed e =
      rw (e, Inputs.step)
        (retransmit-IsClient j _ transfer_timer _ (still j s w.holds) o w.flight
          (inr (ap some timed)) refl timed)
  expire-IsClient j seconds s w o dally_timer timed e =
      rw (e, Inputs.step)
        (finished-IsClient raw net peer hc sink n file j successful none _ (still j s w.holds)
          w.flight (λ e. timed))

  -- A timeout sends the acknowledgement again, or the operation ends.
  pub timeout-IsClient :
      (j : ℕ) (s : State E C)
      → IsClient raw net peer hc sink n file j s
      → IsClient raw net peer hc sink n file j (step raw net hc (expires success) s)
  timeout-IsClient j s w = elim (Option-cases s.timing) [
    | inl e ↦ rw (expire_idle s e) w
    | inr ((timer, seconds), e) ↦ elim w.goes_on [
      | inl o ↦
          expire-IsClient j seconds s w o timer
            (subst (IsTimed raw net peer hc sink n file j s.transmit_packet) e w.timed) e
      | inr (_, idle) ↦ rw (expire_idle s idle) w
    ]
  ]
