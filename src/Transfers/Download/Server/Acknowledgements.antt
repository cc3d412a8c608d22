-- ===== src/Transfers/Download/Server/Acknowledgements.antt =====
-- A server that sends a file: the acknowledgements of the client.
use tftp_senior_design.Base.{
  ℕ, suc, refl, subst, inl, inr, true, false, none, List, arith, if_elim, subst, ◌≡◌, ◌⊎◌,
}
use tftp_senior_design.Tftp.{TransmitDataHandler, successful}
use tftp_senior_design.Tftp.Contracts.{Source}
use tftp_senior_design.Helper.{RawData}
use tftp_senior_design.Packets.BlockNumber.{block, block-IsU16, next-ne, equal, differ}
use tftp_senior_design.Servers.ReadOperation.{State}
use tftp_senior_design.Servers.ReadOperation.Transfer.{continue_transfer, acknowledgement_packet}
use tftp_senior_design.Transfers.Download.Server.{
  IsOpen, send_data-IsServer, finished-IsServer, receive-IsServer, IsServer, IsKept,
}

module _ (raw : RawData) {E S : Type 0} (hs : TransmitDataHandler S) (source : Source hs) (n : ℕ)
    (file : List ℕ) where
  -- The acknowledgement of the last block that was acknowledged comes again.
  acknowledgement-again :
      (i : ℕ) (sender : E) (s : State E S)
      → IsKept raw hs source n file i i s
      → IsOpen source n file i s.derived
      → IsServer raw hs source n file i i
          (acknowledgement_packet raw hs sender (record { block_number = block i }) s)
  unfolding acknowledgement_packet
  acknowledgement-again i sender s w o =
      let same : equal (block i) s.derived.last_received_block_number ≡ true =
        ground (arith, o.acknowledged) in
      rw (same, acknowledgement_packet) (receive-IsServer raw hs source n file i i s w o)

  -- Block `i` is acknowledged: it was the last one, or the next one is sent.
  abbrev IsFurther : ℕ → State E S → Type 0
  IsFurther i s =
      IsServer raw hs source n file i (suc i) s ⊎ IsServer raw hs source n file (suc i) (suc i) s

  continue-IsServer :
      (i : ℕ) (s : State E S)
      → IsKept raw hs source n file i (suc i) s
      → IsOpen source n file i s.derived
      → IsFurther i (
          continue_transfer raw hs (record s {
            derived = record s.derived { last_received_block_number = block (suc i) };
          }))
  unfolding continue_transfer
  continue-IsServer i s w o =
      if_elim (IsFurther i) s.derived.last_data_packet_transmitted _ _
        (λ e. inl (
          finished-IsServer raw hs source n file i (suc i) successful none _
            (record { flight = w.flight; bytes = w.bytes; told = w.told; faultless = w.faultless })
            (λ _. o.last e)))
        (λ e. inr (
          send_data-IsServer raw hs source n file (suc i) (suc i) _
            (record {
              numbered = o.numbered;
              acknowledged = refl;
              sized = o.sized;
              rest = o.rest;
              unfinished = e;
            })
            w.told w.faultless))

  acknowledgement-next :
      (i : ℕ) (sender : E) (s : State E S)
      → IsKept raw hs source n file i (suc i) s
      → IsOpen source n file i s.derived
      → IsFurther i
          (acknowledgement_packet raw hs sender (record { block_number = block (suc i) }) s)
  unfolding acknowledgement_packet block
  acknowledgement-next i sender s w o =
      let again : equal (block (suc i)) s.derived.last_received_block_number ≡ false =
        ground (arith, o.acknowledged, next-ne (block i) (block-IsU16 i)) in
      let wrong : differ (block (suc i)) s.derived.last_transmitted_block_number ≡ false =
        ground (arith, o.numbered) in
      rw (again, acknowledgement_packet) (rw wrong (continue-IsServer i s w o))

  -- The acknowledgement of `j` blocks comes, where `j` is what the client has received.
  abbrev pub IsNext : ℕ → State E S → Type 0
  IsNext j s = (k : ℕ) × ((j ≡ k) ⊎ (j ≡ suc k)) × IsServer raw hs source n file k j s

  pub acknowledgement-IsNext :
      (i j : ℕ) (sender : E) (s : State E S)
      → (j ≡ i) ⊎ (j ≡ suc i)
      → IsKept raw hs source n file i j s
      → IsOpen source n file i s.derived
      → IsNext j (acknowledgement_packet raw hs sender (record { block_number = block j }) s)
  acknowledgement-IsNext i j sender s (inl e) w o = rw e (
    i,
    inl refl,
    acknowledgement-again i sender s (subst (λ k. IsKept raw hs source n file i k s) e w) o,
  )
  acknowledgement-IsNext i j sender s (inr e) w o =
      rw e
        (elim (acknowledgement-next i sender s (subst (λ k. IsKept raw hs source n file i k s) e w)
          o) [ inl done ↦ (i, inr refl, done) | inr further ↦ (suc i, inl refl, further) ])
