-- ===== src/Transfers/Traces.antt =====
-- What the operations of both sides have done, and what the network does next.
use tftp_senior_design.Base.{
  ℕ, refl, inl, inr, Bool, true, false, Option, none, some, List, [], ◌≡◌, ◌⊎◌, ◌∷◌, if◌then◌else◌,
}
use tftp_senior_design.Tftp.{TransferStatus, successful}
use tftp_senior_design.Network.{Event, sent, sent_to, connected, completed}

-- The packet that was sent last over the connection of an operation; the first packet of a client
-- goes to the port of the server, and not to that of its operation.
unfoldable pub in_flight : {E : Type 0} → List (Event E) → Option (List ℕ)
in_flight [] = none
in_flight (sent packet ∷ t) = some packet
in_flight (sent_to e packet ∷ t) = in_flight t
in_flight (connected e ∷ t) = in_flight t
in_flight (completed status ∷ t) = in_flight t

-- Whether an operation has told its completion handler that it was successful.
unfoldable pub has_succeeded : {E : Type 0} → List (Event E) → Bool
has_succeeded [] = false
has_succeeded (completed successful ∷ t) = true
has_succeeded (completed _ ∷ t) = has_succeeded t
has_succeeded (sent packet ∷ t) = has_succeeded t
has_succeeded (sent_to e packet ∷ t) = has_succeeded t
has_succeeded (connected e ∷ t) = has_succeeded t

-- The completion handler's call sends nothing.
pub in_flight-finished :
    {E : Type 0} (b : Bool) (status : TransferStatus) (t : List (Event E))
    → in_flight (if b then completed status ∷ t else t) ≡ in_flight t
unfolding in_flight
in_flight-finished true status t = refl
in_flight-finished false status t = refl

pub has_succeeded-finished :
    {E : Type 0} (b : Bool) (status : TransferStatus) (t : List (Event E))
    → has_succeeded (if b then completed status ∷ t else t) ≡ true
    → (has_succeeded t ≡ true) ⊎ (status ≡ successful)
unfolding has_succeeded
has_succeeded-finished true TransferStatus.successful t e = inr refl
has_succeeded-finished true TransferStatus.communication_error t e = inl e
has_succeeded-finished true TransferStatus.request_error t e = inl e
has_succeeded-finished true TransferStatus.option_negotiation_error t e = inl e
has_succeeded-finished true TransferStatus.transfer_error t e = inl e
has_succeeded-finished true TransferStatus.aborted t e = inl e
has_succeeded-finished false status t e = inl e

-- What happens next: the last packet of one side arrives at the other, again or for the first time,
-- or a timer expires.
pub data Move : Type 0 where
  to_client to_server client_timeout server_timeout : Move
