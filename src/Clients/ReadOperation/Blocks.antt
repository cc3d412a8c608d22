-- ===== src/Clients/ReadOperation/Blocks.antt =====
-- Which blocks the read operation hands to its data handler.
use tftp_senior_design.Base.{
  ℕ, refl, ap, inl, inr, List, [], arith, Bool-cases, length, All, ◌≤◌, ◌≡◌, ◌⊎◌, ◌∷◌,
}
use tftp_senior_design.Tftp.{ReceiveDataHandler, TftpOptionsConfiguration}
use tftp_senior_design.Network.{Network}
use tftp_senior_design.Helper.{RawData}
use tftp_senior_design.Packets.{default_data_size}
use tftp_senior_design.Packets.BlockNumber.{block, next, block-suc}
use tftp_senior_design.Clients.Operation.{Input}
use tftp_senior_design.Clients.Operation
use tftp_senior_design.Clients.Operation.Inputs
use tftp_senior_design.Clients.Operation.Keeps
use tftp_senior_design.Clients.Operation.Steps
use tftp_senior_design.Clients.Operation.Keeps.{OfMembers, members-IsClosed}
use tftp_senior_design.Clients.ReadOperation.{
  ReadPart, State, derived_finished, request, send_request,
}
use tftp_senior_design.Clients.RequestOptions.{IsNegotiable}
use tftp_senior_design.Clients.ReadOperation.Run.{run}
use tftp_senior_design.Clients.ReadOperation.Invariant

-- A data handler that also keeps the blocks that it is given, the newest first.
abbrev pub recording : {H : Type 0} → ReceiveDataHandler H → ReceiveDataHandler (H × List (List ℕ))
recording h = record {
  start = λ a. (((h.start a.0).0, a.1), (h.start a.0).1);
  finished = λ a. (h.finished a.0, a.1);
  received_transfer_size =
      λ a n. ((h.received_transfer_size a.0 n).0, ((h.received_transfer_size a.0 n).1, a.1));
  received_data = λ a c. (h.received_data a.0 c, c ∷ a.1);
}

-- The size of a block: the default, or what the server may have answered to the block size option.
unfoldable pub IsBlockSize : TftpOptionsConfiguration → ℕ → Type 0
IsBlockSize c n = (n ≡ default_data_size) ⊎ IsNegotiable c n

abbrev FitIn : ℕ → List (List ℕ) → Type 0
FitIn n l = All (λ (c : List ℕ). length c ≤ n) l

pub record IsTransfer {H : Type 0} (d : ReadPart (H × List (List ℕ))) : Type 0 where
  pub counted : d.last_received_block_number ≡ block (length d.handler.1)
  pub fitting : FitIn d.receive_data_size d.handler.1
  pub sized : IsBlockSize d.options_configuration d.receive_data_size

pub record IsFresh {H : Type 0} (d : ReadPart (H × List (List ℕ))) : Type 0 where
  pub empty : d.handler.1 ≡ []
  pub zero_number : d.last_received_block_number ≡ 0
  pub default_size : d.receive_data_size ≡ default_data_size

block_zero : (l : List (List ℕ)) → block (length l) ≡ 0 → l ≡ []
block_zero [] e = refl
block_zero (c ∷ l) e = absurd (omega (arith, block-suc (length l)))

no_blocks : (n : ℕ) (l : List (List ℕ)) → l ≡ [] → FitIn n l
no_blocks n [] e = tt
no_blocks n (c ∷ l) e = cc

module _ {H : Type 0} where
  abbrev Early : ReadPart (H × List (List ℕ)) → Type 0
  Early d = IsTransfer d × (d.handler.1 ≡ [])

  fresh-IsTransfer : (d : ReadPart (H × List (List ℕ))) → IsFresh d → IsTransfer d
  unfolding IsBlockSize block
  fresh-IsTransfer d f = record {
    counted = rw (f.empty, f.zero_number) refl;
    fitting = no_blocks _ _ f.empty;
    sized = inl f.default_size;
  }

  -- The invariant reads four members.
  same :
      (d e : ReadPart (H × List (List ℕ)))
      → e.last_received_block_number ≡ d.last_received_block_number
      → e.handler.1 ≡ d.handler.1
      → e.receive_data_size ≡ d.receive_data_size
      → e.options_configuration ≡ d.options_configuration
      → IsTransfer d
      → IsTransfer e
  same d e n l z c t = record {
    counted = rw (n, l) t.counted;
    fitting = rw (l, z) t.fitting;
    sized = rw (z, c) t.sized;
  }

  fresh :
      (d : ReadPart (H × List (List ℕ)))
      → d.handler.1 ≡ []
      → d.last_received_block_number ≡ 0
      → d.receive_data_size ≡ default_data_size
      → IsFresh d
  fresh d e z n = record { empty = e; zero_number = z; default_size = n }

  negotiated :
      (d : ReadPart (H × List (List ℕ))) (n : ℕ)
      → IsNegotiable d.options_configuration n
      → Early d
      → Early (record d { receive_data_size = n })
  unfolding IsBlockSize
  negotiated d n v (t, e) =
      (record { counted = t.counted; fitting = no_blocks _ _ e; sized = inr v }, e)

  module _ (raw : RawData) {E : Type 0} (net : Network E) (h : ReceiveDataHandler H)
      (is : List (Input E)) where
    kept :
        (d : ReadPart (H × List (List ℕ)))
        → IsTransfer d
        → IsTransfer (derived_finished (recording h) d)
    kept d t = same d _ refl refl refl refl t

    requested :
        (s : State E (H × List (List ℕ)))
        → IsFresh s.derived
        → IsTransfer (request raw net (recording h) s).derived
    unfolding request send_request Operation.finished IsBlockSize block
    requested s f =
        let packet = λ (e : E) (bytes : List ℕ) (t : State E (H × List (List ℕ))). t in
        let f_kept = λ (d : ReadPart (H × List (List ℕ))) (g : IsFresh d).
          fresh (derived_finished (recording h) d) g.empty g.zero_number g.default_size in
        let i = Inputs.initialise raw net (derived_finished (recording h)) packet s in
        let g =
          Steps.initialise-kept raw (derived_finished (recording h)) (OfMembers IsFresh)
            (members-IsClosed _ IsFresh f_kept) net packet (λ e bytes t q. q) (λ d o q b t g. g) s
            f in
        elim (Bool-cases (h.start i.derived.handler.0).1) [
          | inl e ↦
              rw (e, request) (fresh-IsTransfer _ (fresh _ g.empty g.zero_number g.default_size))
          | inr e ↦
              rw (e, request)
                (Keeps.receive_first-kept raw _ (OfMembers IsTransfer)
                  (members-IsClosed _ IsTransfer kept) _
                  (Keeps.send_first-kept raw _ (OfMembers IsTransfer)
                    (members-IsClosed _ IsTransfer kept) _ _
                    (fresh-IsTransfer _ (fresh _ g.empty refl refl))))
        ]

    run-IsTransfer :
        (s : State E (H × List (List ℕ)))
        → IsTransfer s.derived
        → IsTransfer (run raw net (recording h) is s).derived
    unfolding block
    run-IsTransfer s t =
        Invariant.run-kept raw (recording h) (OfMembers IsTransfer) (OfMembers Early)
          (members-IsClosed _ IsTransfer kept)
          (λ d o b l c fits t. record {
            counted = ap next t.counted;
            fitting = (fits, t.fitting);
            sized = t.sized;
          })
          (members-IsClosed _ Early (λ d q. (same d _ refl refl refl refl q.0, q.1)))
          (λ d o b l. negotiated d) (λ d o b l n q. (same d _ refl refl refl refl q.0, q.1))
          (λ d o b l q. (same d _ refl refl refl refl q.0, q.1))
          (λ d o b l t e. (t, block_zero _ cc)) (λ d o b l q. q.0) net is s t

    -- After the request of a fresh operation and any inputs, whichever calls throw, the member
    -- lastReceivedBlockNumber is the number of the block at the place of the count of the blocks
    -- that the data handler was given: none was given twice or left out. All of them fit the block
    -- size, and that is 512, or the block size option was requested and it is between 8 and the
    -- size requested. A fresh operation has received nothing and has the default block size.
    pub request-IsTransfer :
        (s : State E (H × List (List ℕ)))
        → IsFresh s.derived
        → IsTransfer (run raw net (recording h) is (request raw net (recording h) s)).derived
    request-IsTransfer s f = run-IsTransfer _ (requested s f)
