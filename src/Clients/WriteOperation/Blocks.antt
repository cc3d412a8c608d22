-- ===== src/Clients/WriteOperation/Blocks.antt =====
-- Which blocks the write operation takes from its data handler, and their numbers.
use tftp_senior_design.Base.{
  ℕ, refl, ap, inl, inr, Bool, true, false, List, [], arith, ltb, if_elim, Bool-cases, length, All,
  ◌≤◌, ◌≡◌, ◌⊎◌, ◌||◌, ◌∷◌,
}
use tftp_senior_design.Tftp.{TransmitDataHandler}
use tftp_senior_design.Network.{Network}
use tftp_senior_design.Helper.{RawData}
use tftp_senior_design.Packets.{default_data_size}
use tftp_senior_design.Packets.BlockNumber.{block, next}
use tftp_senior_design.Clients.Operation.{Input}
use tftp_senior_design.Clients.Operation
use tftp_senior_design.Clients.Operation.Inputs
use tftp_senior_design.Clients.Operation.Keeps
use tftp_senior_design.Clients.Operation.Steps
use tftp_senior_design.Clients.Operation.Keeps.{OfMembers, members-IsClosed}
use tftp_senior_design.Clients.RequestOptions.{IsNegotiable}
use tftp_senior_design.Clients.WriteOperation.{
  WritePart, State, derived_finished, request, send_request, ask_transfer_size, reset, update,
}
use tftp_senior_design.Clients.WriteOperation.Run.{run}
use tftp_senior_design.Clients.WriteOperation.Invariant

-- A data handler that also keeps the blocks that were taken of it, the newest first, each with the
-- size that was asked for.
abbrev pub recording :
    {H : Type 0} → TransmitDataHandler H → TransmitDataHandler (H × List (ℕ × List ℕ))
recording h = record {
  start = λ a. (((h.start a.0).0, a.1), (h.start a.0).1);
  finished = λ a. (h.finished a.0, a.1);
  requested_transfer_size =
      λ a. ((h.requested_transfer_size a.0).0, ((h.requested_transfer_size a.0).1, a.1));
  send_data =
      λ a n. ((h.send_data a.0 n).0, ((h.send_data a.0 n).1, (n, (h.send_data a.0 n).0) ∷ a.1));
}

-- Every block taken is as long as was asked for, at least.
abbrev pub AreFull : List (ℕ × List ℕ) → Type 0
AreFull l = All (λ (p : ℕ × List ℕ). p.0 ≤ length p.1) l

pub record IsSending {H : Type 0} (d : WritePart (H × List (ℕ × List ℕ))) : Type 0 where
  pub counted : d.last_transmitted_block_number ≡ block (length d.handler.1)
  pub flagged : d.last_data_packet_transmitted ≡ false → AreFull d.handler.1
  pub sized :
      (d.transmit_data_size ≡ default_data_size)
      ⊎ IsNegotiable d.options_configuration d.transmit_data_size

pub record IsUnused {H : Type 0} (d : WritePart (H × List (ℕ × List ℕ))) : Type 0 where
  pub empty : d.handler.1 ≡ []
  pub zero_number : d.last_transmitted_block_number ≡ 0
  pub default_size : d.transmit_data_size ≡ default_data_size

no_blocks : (l : List (ℕ × List ℕ)) → l ≡ [] → AreFull l
no_blocks [] e = tt
no_blocks (c ∷ l) e = cc

abbrev Part : Type 0 → Type 0
Part H = WritePart (H × List (ℕ × List ℕ))

not_short : (m n : ℕ) (b : Bool) → (ltb m n || b) ≡ false → (n ≤ m) × (b ≡ false)
not_short m n true e = ground arith
not_short m n false e = ground arith

module _ {H : Type 0} where
  unused-IsSending : (d : Part H) → IsUnused d → IsSending d
  unfolding block
  unused-IsSending d f = record {
    counted = rw (f.empty, f.zero_number) refl;
    flagged = λ e. no_blocks _ f.empty;
    sized = inl f.default_size;
  }

  unused :
      (d : Part H)
      → d.handler.1 ≡ []
      → d.last_transmitted_block_number ≡ 0
      → d.transmit_data_size ≡ default_data_size
      → IsUnused d
  unused d e z n = record { empty = e; zero_number = z; default_size = n }

  module _ (raw : RawData) {E : Type 0} (net : Network E) (h : TransmitDataHandler H)
      (is : List (Input E)) where
    kept : (d : Part H) → IsSending d → IsSending (derived_finished (recording h) d)
    kept d t = record { counted = t.counted; flagged = t.flagged; sized = t.sized }

    taken :
        (d : Part H)
        → IsSending d
        → IsSending (record d {
          handler = ((recording h).send_data d.handler d.transmit_data_size).1;
          last_transmitted_block_number = next d.last_transmitted_block_number;
          last_data_packet_transmitted =
              ltb
                (length ((recording h).send_data d.handler d.transmit_data_size).0)
                d.transmit_data_size
              || d.last_data_packet_transmitted;
        })
    unfolding block
    taken d t = record {
      counted = ap next t.counted;
      flagged = λ e. (let (fits, flag) = not_short _ _ _ e in (fits, t.flagged flag));
      sized = t.sized;
    }

    ask_transfer_size-kept :
        (t : State E (H × List (ℕ × List ℕ)))
        → IsUnused t.derived
        → IsSending (ask_transfer_size raw net (recording h) t).derived
    unfolding ask_transfer_size
    ask_transfer_size-kept t g =
        let asked = (recording h).requested_transfer_size t.derived.handler in
        if_elim (λ (u : State E (H × List (ℕ × List ℕ))). IsSending u.derived)
          t.derived.options_configuration.handle_transfer_size_option
          (update (λ d. record d { handler = asked.1; transfer_size = asked.0 }) t) t
          (λ a. unused-IsSending _ (unused _ g.empty g.zero_number g.default_size))
          (λ a. unused-IsSending _ g)

    send_request-kept :
        (t : State E (H × List (ℕ × List ℕ)))
        → IsSending t.derived
        → IsSending (send_request raw net (recording h) t).derived
    unfolding send_request
    send_request-kept t u =
        Keeps.receive_first-kept raw _ (OfMembers IsSending) (members-IsClosed _ IsSending kept) _ (
          Keeps.send_first-kept raw _ (OfMembers IsSending) (members-IsClosed _ IsSending kept) _ t
            u)

    requested :
        (s : State E (H × List (ℕ × List ℕ)))
        → IsUnused s.derived
        → IsSending (request raw net (recording h) s).derived
    unfolding request reset Operation.finished
    requested s f =
        let packet = λ (e : E) (bytes : List ℕ) (t : State E (H × List (ℕ × List ℕ))). t in
        let f_kept = λ (d : Part H) (g : IsUnused d).
          unused (derived_finished (recording h) d) g.empty g.zero_number g.default_size in
        let i = Inputs.initialise raw net (derived_finished (recording h)) packet s in
        let g =
          Steps.initialise-kept raw (derived_finished (recording h)) (OfMembers IsUnused)
            (members-IsClosed _ IsUnused f_kept) net packet (λ e bytes t q. q) (λ d o q b t g. g) s
            f in
        elim (Bool-cases (h.start i.derived.handler.0).1) [
          | inl e ↦
              rw (e, request) (unused-IsSending _ (unused _ g.empty g.zero_number g.default_size))
          | inr e ↦
              rw (e, request)
                (send_request-kept _ (ask_transfer_size-kept _ (unused _ g.empty refl refl)))
        ]

    run-IsSending :
        (s : State E (H × List (ℕ × List ℕ)))
        → IsSending s.derived
        → IsSending (run raw net (recording h) is s).derived
    run-IsSending s t =
        Invariant.run-kept raw (recording h) (OfMembers IsSending)
          (members-IsClosed _ IsSending kept)
          (λ d o b l n v t. record { counted = t.counted; flagged = t.flagged; sized = inr v })
          (λ d o b l n t. record { counted = t.counted; flagged = t.flagged; sized = t.sized })
          (λ d o b l. taken d) net is s t

    -- After the request of an unused operation and any inputs, whichever calls throw, the member
    -- lastTransmittedBlockNumber is the number of the block at the place of the count of the blocks
    -- taken of the data handler: the numbers of the blocks are consecutive. As long as the last
    -- block has not been taken, all that were taken have the length asked for, at least. The block
    -- size is 512, or the block size option was requested and it is between 8 and the size
    -- requested. An unused operation has taken no block and has the default block size.
    pub request-IsSending :
        (s : State E (H × List (ℕ × List ℕ)))
        → IsUnused s.derived
        → IsSending (run raw net (recording h) is (request raw net (recording h) s)).derived
    request-IsSending s f = run-IsSending _ (requested s f)
