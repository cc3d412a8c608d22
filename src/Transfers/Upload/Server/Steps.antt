-- ===== src/Transfers/Upload/Server/Steps.antt =====
-- A server that receives a file: what happens when a packet arrives and when its timer expires.
use tftp_senior_design.Base.{
  ℕ, suc, refl, ap, subst, inl, inr, Bool, false, Option, none, some, List, ltb, if_elim,
  Option-cases, subst, ◌≡◌, ◌⊎◌, if◌then◌else◌,
}
use tftp_senior_design.Tftp.{ReceiveDataHandler, successful}
use tftp_senior_design.Tftp.Contracts.{Sink}
use tftp_senior_design.Network.{success}
use tftp_senior_design.Helper.{RawData}
use tftp_senior_design.Packets.BlockNumber.{block, block-IsU16}
use tftp_senior_design.Packets.Handler
use tftp_senior_design.Packets.Packet.{Packet, encode}
use tftp_senior_design.Servers.Operation.{
  receive, Timer, transfer_timer, dally_timer, send, prepare,
}
use tftp_senior_design.Servers.Operation.Inputs
use tftp_senior_design.Servers.Operation.Inputs.{
  arrives, expires, arrive, expire, receive_handler, retransmit, timeout_handler,
  timeout_dally_handler,
}
use tftp_senior_design.Servers.Operation.Sending.{send_faultless}
use tftp_senior_design.Servers.WriteOperation.{State, derived_finished}
use tftp_senior_design.Servers.WriteOperation.Transfer.{ack}
use tftp_senior_design.Servers.WriteOperation.Run.{handlers, packet, step}
use tftp_senior_design.Transfers.Blocks.{block_packet}
use tftp_senior_design.Transfers.Traces.{in_flight, has_succeeded}
use tftp_senior_design.Transfers.Upload.Server.{
  IsTimed, IsOpen, data_packet-IsServer, finished-IsServer, receive-IsServer, IsAnswered, IsServer,
  IsKept,
}

module _ (raw : RawData) {E C : Type 0} (hc : ReceiveDataHandler C) (sink : Sink hc) (n : ℕ)
    (file : List ℕ) where
  packet-IsServer :
      (i j : ℕ) (sender : E) (s : State E C)
      → (j ≡ i) ⊎ (j ≡ suc i)
      → IsKept raw hc sink n file j s
      → IsOpen sink n j s.derived
      → IsServer raw hc sink n file
          (suc i)
          (packet raw hc sender (encode raw (Packet.data_block (block_packet n file i))) s)
  unfolding packet
  packet-IsServer i j sender s near w o =
      let done = data_packet-IsServer raw hc sink n file i j sender s near w o in
      rw
        (Handler.packet-encode raw (handlers raw hc) sender
          (Packet.data_block (block_packet n file i)) s (block-IsU16 (suc i)))
        (record {
          holds = record {
            kept = done.holds.kept;
            told = done.holds.told;
            faultless = done.holds.faultless;
          };
          answered = record { flight = done.answered.flight; bytes = done.answered.bytes };
          timed = done.timed;
          goes_on = done.goes_on;
        })

  arrive_unheard :
      (bytes : List ℕ) (s : State E C)
      → s.receiving ≡ false
      → step raw hc (arrives success bytes) s ≡ s
  unfolding step Inputs.step arrive
  arrive_unheard bytes s e =
      ap
        (λ (b : Bool).
          if b
          then receive_handler raw (derived_finished hc) (packet raw hc) success bytes
              (record s { receiving = false })
          else s)
        e

  abbrev after_block : ℕ → State E C → State E C
  after_block i s =
      step raw hc (arrives success (encode raw (Packet.data_block (block_packet n file i)))) s

  -- After block `i` of the file the server has received `i + 1` blocks, or it is as before.
  pub to_server-IsServer :
      (i j : ℕ) (s : State E C)
      → (j ≡ i) ⊎ (j ≡ suc i)
      → IsServer raw hc sink n file j s
      → IsServer raw hc sink n file (suc i) (after_block i s)
        ⊎ IsServer raw hc sink n file j (after_block i s)
  unfolding step Inputs.step arrive receive_handler
  to_server-IsServer i j s near w = elim w.goes_on [
    | inr (closed, _) ↦
        inr
          (rw (arrive_unheard (encode raw (Packet.data_block (block_packet n file i))) s closed) w)
    | inl o ↦
        if_elim
          (λ (t : State E C).
            IsServer raw hc sink n file (suc i) t ⊎ IsServer raw hc sink n file j t)
          s.receiving _ _
          (λ _. inl (
            packet-IsServer i j s.remote _ near
              (record { kept = w.holds.kept; told = w.holds.told; faultless = w.holds.faultless })
              o))
          (λ _. inr w)
  ]

  retransmit-IsServer :
      (j : ℕ) (s : State E C)
      → IsKept raw hc sink n file j s
      → IsAnswered raw hc sink n file j s
      → IsOpen sink n j s.derived
      → IsServer raw hc sink n file j (retransmit raw (derived_finished hc) s)
  unfolding retransmit in_flight has_succeeded
  retransmit-IsServer j s w a o =
      if_elim (IsServer raw hc sink n file j) (ltb s.tftp_retries s.transmit_counter) _ _
        (λ e. finished-IsServer raw hc sink n file j _ none s w a (λ e. cc))
        (λ e. rw (w.faultless 0) (record {
          holds = record { kept = w.kept; told = w.told; faultless = λ k. w.faultless (suc k) };
          answered = record { flight = ap some a.bytes; bytes = a.bytes };
          timed = tt;
          goes_on = inl o;
        }))

  expire_idle : (s : State E C) → s.timing ≡ none → step raw hc (expires success) s ≡ s
  unfolding step Inputs.step expire
  expire_idle s e =
      let idle = record s { timing = none } in
      ap
        (λ (t : Option (Timer × ℕ)). elim t [
          | none ↦ s
          | some (transfer_timer, seconds) ↦ timeout_handler raw (derived_finished hc) success idle
          | some (dally_timer, seconds) ↦
              timeout_dally_handler raw (derived_finished hc) success idle
        ])
        e

  expire-IsServer :
      (j seconds : ℕ) (s : State E C)
      → IsServer raw hc sink n file j s
      → IsOpen sink n j s.derived
      → (timer : Timer) → IsTimed n file j (some (timer, seconds))
      → s.timing ≡ some (timer, seconds)
      → IsServer raw hc sink n file j (step raw hc (expires success) s)
  unfolding step Inputs.step expire timeout_handler timeout_dally_handler
  expire-IsServer j seconds s w o transfer_timer timed e =
      rw (e, Inputs.step)
        (retransmit-IsServer j _
          (record { kept = w.holds.kept; told = w.holds.told; faultless = w.holds.faultless })
          (record { flight = w.answered.flight; bytes = w.answered.bytes }) o)
  expire-IsServer j seconds s w o dally_timer timed e =
      rw (e, Inputs.step)
        (finished-IsServer raw hc sink n file j successful none _
          (record { kept = w.holds.kept; told = w.holds.told; faultless = w.holds.faultless })
          (record { flight = w.answered.flight; bytes = w.answered.bytes }) (λ e. timed))

  -- A timeout sends the acknowledgement again, or the operation ends.
  pub timeout-IsServer :
      (j : ℕ) (s : State E C)
      → IsServer raw hc sink n file j s
      → IsServer raw hc sink n file j (step raw hc (expires success) s)
  timeout-IsServer j s w = elim (Option-cases s.timing) [
    | inl e ↦ rw (expire_idle s e) w
    | inr ((timer, seconds), e) ↦ elim w.goes_on [
      | inl o ↦ expire-IsServer j seconds s w o timer (subst (IsTimed n file j) e w.timed) e
      | inr (_, idle) ↦ rw (expire_idle s idle) w
    ]
  ]

  -- The acknowledgement of block 0 is sent.
  pub send-IsServer :
      (s : State E C)
      → IsKept raw hc sink n file 0 s
      → IsOpen sink n 0 s.derived
      → IsServer raw hc sink n file 0
          (receive (derived_finished hc) (send raw (derived_finished hc) (ack 0) s))
  unfolding prepare in_flight has_succeeded block
  send-IsServer s w o = rw (send_faultless raw (derived_finished hc) (ack 0) s (w.faultless 0)) (
      receive-IsServer raw hc sink n file 0 _
        (record { kept = w.kept; told = w.told; faultless = λ k. w.faultless (suc k) })
        (record { flight = refl; bytes = refl }) o)
