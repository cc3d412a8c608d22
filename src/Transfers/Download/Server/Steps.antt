-- ===== src/Transfers/Download/Server/Steps.antt =====
-- A server that sends a file: what happens when a packet arrives and when its timer expires.
use tftp_senior_design.Base.{
  ℕ, suc, ap, subst, inl, inr, Bool, false, Option, none, some, List, ltb, if_elim, Option-cases,
  subst, ◌≡◌, ◌⊎◌, if◌then◌else◌,
}
use tftp_senior_design.Tftp.{TransmitDataHandler}
use tftp_senior_design.Tftp.Contracts.{Source}
use tftp_senior_design.Network.{success}
use tftp_senior_design.Helper.{RawData}
use tftp_senior_design.Packets.BlockNumber.{block, block-IsU16}
use tftp_senior_design.Packets.Handler
use tftp_senior_design.Packets.Packet.{encode}
use tftp_senior_design.Servers.Operation.{Timer, transfer_timer, dally_timer}
use tftp_senior_design.Servers.Operation.Inputs
use tftp_senior_design.Servers.Operation.Inputs.{
  arrives, expires, arrive, expire, receive_handler, retransmit, timeout_handler,
}
use tftp_senior_design.Servers.ReadOperation.{State, derived_finished}
use tftp_senior_design.Servers.ReadOperation.Run.{handlers, packet, step}
use tftp_senior_design.Clients.ReadOperation.Transfer.{ack}
use tftp_senior_design.Transfers.Traces.{in_flight, has_succeeded}
use tftp_senior_design.Transfers.Download.Server.{
  IsTimed, IsOpen, finished-IsServer, IsServer, IsKept,
}
use tftp_senior_design.Transfers.Download.Server.Acknowledgements.{acknowledgement-IsNext, IsNext}

module _ (raw : RawData) {E S : Type 0} (hs : TransmitDataHandler S) (source : Source hs) (n : ℕ)
    (file : List ℕ) where
  packet-IsNext :
      (i j : ℕ) (sender : E) (s : State E S)
      → (j ≡ i) ⊎ (j ≡ suc i)
      → IsKept raw hs source n file i j s
      → IsOpen source n file i s.derived
      → IsNext raw hs source n file j (packet raw hs sender (encode raw (ack (block j))) s)
  unfolding packet
  packet-IsNext i j sender s near w o =
      let (k, later, done) = acknowledgement-IsNext raw hs source n file i j sender s near w o in
      rw (Handler.packet-encode raw (handlers raw hs) sender (ack (block j)) s (block-IsU16 j)) (
        k,
        later,
        record {
          holds = record {
            flight = done.holds.flight;
            bytes = done.holds.bytes;
            told = done.holds.told;
            faultless = done.holds.faultless;
          };
          timed = done.timed;
          goes_on = done.goes_on;
        },
      )

  arrive_unheard :
      (bytes : List ℕ) (s : State E S)
      → s.receiving ≡ false
      → step raw hs (arrives success bytes) s ≡ s
  unfolding step Inputs.step arrive
  arrive_unheard bytes s e =
      ap
        (λ (b : Bool).
          if b
          then receive_handler raw (derived_finished hs) (packet raw hs) success bytes
              (record s { receiving = false })
          else s)
        e

  -- The last packet of the client arrives.
  pub to_server-IsServer :
      (i j : ℕ) (s : State E S)
      → (j ≡ i) ⊎ (j ≡ suc i)
      → IsServer raw hs source n file i j s
      → IsNext raw hs source n file j (step raw hs (arrives success (encode raw (ack (block j)))) s)
  unfolding step Inputs.step arrive receive_handler
  to_server-IsServer i j s near w = elim w.goes_on [
    | inr (closed, _) ↦ rw (arrive_unheard (encode raw (ack (block j))) s closed) (i, near, w)
    | inl o ↦
        if_elim (IsNext raw hs source n file j) s.receiving _ _
          (λ _.
            packet-IsNext i j s.remote _ near
              (record {
                flight = w.holds.flight;
                bytes = w.holds.bytes;
                told = w.holds.told;
                faultless = w.holds.faultless;
              })
              o)
          (λ _. (i, near, w))
  ]

  retransmit-IsServer :
      (i j : ℕ) (s : State E S)
      → IsKept raw hs source n file i j s
      → IsOpen source n file i s.derived
      → IsServer raw hs source n file i j (retransmit raw (derived_finished hs) s)
  unfolding retransmit in_flight has_succeeded
  retransmit-IsServer i j s w o =
      if_elim (IsServer raw hs source n file i j) (ltb s.tftp_retries s.transmit_counter) _ _
        (λ e. finished-IsServer raw hs source n file i j _ none s w (λ e. cc))
        (λ e. rw (w.faultless 0) (record {
          holds = record {
            flight = ap some w.bytes;
            bytes = w.bytes;
            told = w.told;
            faultless = λ k. w.faultless (suc k);
          };
          timed = tt;
          goes_on = inl o;
        }))

  expire_idle : (s : State E S) → s.timing ≡ none → step raw hs (expires success) s ≡ s
  unfolding step Inputs.step expire
  expire_idle s e =
      let idle = record s { timing = none } in
      ap
        (λ (t : Option (Timer × ℕ)). elim t [
          | none ↦ s
          | some (transfer_timer, seconds) ↦ timeout_handler raw (derived_finished hs) success idle
          | some (dally_timer, seconds) ↦
              Inputs.timeout_dally_handler raw (derived_finished hs) success idle
        ])
        e

  expire-IsServer :
      (i j seconds : ℕ) (s : State E S)
      → IsServer raw hs source n file i j s
      → IsOpen source n file i s.derived
      → (timer : Timer) → IsTimed (some (timer, seconds))
      → s.timing ≡ some (timer, seconds)
      → IsServer raw hs source n file i j (step raw hs (expires success) s)
  unfolding step Inputs.step expire timeout_handler
  expire-IsServer i j seconds s w o transfer_timer timed e =
      rw (e, Inputs.step)
        (retransmit-IsServer i j _
          (record {
            flight = w.holds.flight;
            bytes = w.holds.bytes;
            told = w.holds.told;
            faultless = w.holds.faultless;
          })
          o)
  expire-IsServer i j seconds s w o dally_timer timed e = elim timed [ ]

  -- A timeout sends the block again, or the operation ends.
  pub timeout-IsServer :
      (i j : ℕ) (s : State E S)
      → IsServer raw hs source n file i j s
      → IsServer raw hs source n file i j (step raw hs (expires success) s)
  timeout-IsServer i j s w = elim (Option-cases s.timing) [
    | inl e ↦ rw (expire_idle s e) w
    | inr ((timer, seconds), e) ↦ elim w.goes_on [
      | inl o ↦ expire-IsServer i j seconds s w o timer (subst IsTimed e w.timed) e
      | inr (_, idle) ↦ rw (expire_idle s idle) w
    ]
  ]
