-- ===== src/Transfers/Upload/Client/Acknowledgements.antt =====
-- A client that sends a file: the acknowledgements of the server.
use tftp_senior_design.Base.{
  ℕ, suc, refl, subst, inl, inr, true, false, none, List, arith, if_elim, subst, ◌≡◌, ◌⊎◌,
}
use tftp_senior_design.Tftp.{TransmitDataHandler, successful}
use tftp_senior_design.Tftp.Contracts.{Source}
use tftp_senior_design.Network.{Network}
use tftp_senior_design.Helper.{RawData}
use tftp_senior_design.Packets.BlockNumber.{block, block-IsU16, next-ne, equal, differ}
use tftp_senior_design.Packets.Acknowledgement.{AcknowledgementPacket}
use tftp_senior_design.Packets.Statistic.{Statistic}
use tftp_senior_design.Clients.WriteOperation.{State}
use tftp_senior_design.Clients.WriteOperation.Transfer.{
  continue_transfer, acknowledged, acknowledgement_packet,
}
use tftp_senior_design.Transfers.Upload.Client.{
  IsOpen, send_data-IsClient, finished-IsClient, receive-IsClient, IsClient, IsKept,
}

module _ (raw : RawData) {E C : Type 0} (net : Network E) (peer : E) (hc : TransmitDataHandler C)
    (source : Source hc) (n : ℕ) (file : List ℕ) where
  -- The acknowledgement of the last block that was acknowledged comes again.
  acknowledgement-again :
      (i : ℕ) (sender : E) (s : State E C)
      → IsKept raw net peer hc source n file i i s
      → IsOpen source n file i s.derived
      → IsClient raw net peer hc source n file i i
          (acknowledgement_packet raw hc sender (record { block_number = block i }) s)
  unfolding acknowledgement_packet
  acknowledgement-again i sender s w o =
      let same : equal (block i) s.derived.last_received_block_number ≡ true =
        ground (arith, o.received) in
      rw (same, acknowledgement_packet) (receive-IsClient raw net peer hc source n file i i s w o)

  -- Block `i` is acknowledged: it was the last one, or the next one is sent.
  abbrev IsFurther : ℕ → State E C → Type 0
  IsFurther i s =
      IsClient raw net peer hc source n file i (suc i) s
      ⊎ IsClient raw net peer hc source n file (suc i) (suc i) s

  continue-IsClient :
      (i : ℕ) (s : State E C)
      → IsKept raw net peer hc source n file i (suc i) s
      → IsOpen source n file i s.derived
      → IsFurther i (
          continue_transfer raw hc (record s {
            derived = record s.derived { last_received_block_number = block (suc i) };
          }))
  unfolding continue_transfer
  continue-IsClient i s w o =
      if_elim (IsFurther i) s.derived.last_data_packet_transmitted _ _
        (λ e. inl (
          finished-IsClient raw net peer hc source n file i (suc i) successful none _
            (record {
              flight = w.flight;
              bytes = w.bytes;
              told = w.told;
              faultless = w.faultless;
              expected = w.expected;
            })
            (λ _. o.last e)))
        (λ e. inr (
          send_data-IsClient raw net peer hc source n file (suc i) (suc i) _
            (record {
              numbered = o.numbered;
              received = refl;
              sized = o.sized;
              plain = o.plain;
              rest = o.rest;
              unfinished = e;
            })
            w.told w.faultless w.expected))

  -- The negotiation handler is not there.
  pub acknowledged-plain :
      (p : AcknowledgementPacket) (s : State E C)
      → s.derived.option_negotiation_handler ≡ none
      → acknowledged raw hc p s ≡ continue_transfer raw hc s
  unfolding acknowledged
  acknowledged-plain p s e =
      if_elim (λ t. t ≡ continue_transfer raw hc s) (equal p.block_number 0) _ _ (λ h. simp e refl)
        (λ h. refl)

  acknowledged-IsFurther :
      (i : ℕ) (p : AcknowledgementPacket) (s : State E C)
      → s.derived.option_negotiation_handler ≡ none
      → IsFurther i (continue_transfer raw hc s)
      → IsFurther i (acknowledged raw hc p s)
  acknowledged-IsFurther i p s e w = rw (acknowledged-plain p s e) w

  acknowledgement-next :
      (i : ℕ) (sender : E) (s : State E C)
      → IsKept raw net peer hc source n file i (suc i) s
      → IsOpen source n file i s.derived
      → IsFurther i
          (acknowledgement_packet raw hc sender (record { block_number = block (suc i) }) s)
  unfolding acknowledgement_packet block
  acknowledgement-next i sender s w o =
      let again : equal (block (suc i)) s.derived.last_received_block_number ≡ false =
        ground (arith, o.received, next-ne (block i) (block-IsU16 i)) in
      let wrong : differ (block (suc i)) s.derived.last_transmitted_block_number ≡ false =
        ground (arith, o.numbered) in
      rw (again, acknowledgement_packet)
        (rw wrong (acknowledged-IsFurther i _ _ o.plain (continue-IsClient i s w o)))

  -- The acknowledgement of `j` blocks comes, where `j` is what the server has received.
  abbrev pub IsNext : ℕ → State E C → Type 0
  IsNext j s = (k : ℕ) × ((j ≡ k) ⊎ (j ≡ suc k)) × IsClient raw net peer hc source n file k j s

  pub acknowledgement-IsNext :
      (i j : ℕ) (sender : E) (s : State E C)
      → (j ≡ i) ⊎ (j ≡ suc i)
      → IsKept raw net peer hc source n file i j s
      → IsOpen source n file i s.derived
      → IsNext j (acknowledgement_packet raw hc sender (record { block_number = block j }) s)
  acknowledgement-IsNext i j sender s (inl e) w o = rw e (
    i,
    inl refl,
    acknowledgement-again i sender s (subst (λ k. IsKept raw net peer hc source n file i k s) e w)
        o,
  )
  acknowledgement-IsNext i j sender s (inr e) w o =
      rw e
        (elim (acknowledgement-next i sender s
          (subst (λ k. IsKept raw net peer hc source n file i k s) e w) o) [
            | inl done ↦ (i, inr refl, done)
            | inr further ↦ (suc i, inl refl, further)
          ])

  -- What a packet counts in the statistic changes nothing here.
  pub counted-IsClient :
      (i j : ℕ) (s : State E C) (t : Statistic)
      → IsClient raw net peer hc source n file i j s
      → IsClient raw net peer hc source n file i j (record s { receive_statistic = t })
  counted-IsClient i j s t done = record {
    holds = record {
      flight = done.holds.flight;
      bytes = done.holds.bytes;
      told = done.holds.told;
      faultless = done.holds.faultless;
      expected = done.holds.expected;
    };
    timed = done.timed;
    goes_on = done.goes_on;
  }
