-- ===== src/Clients/Operation/Told.antt =====
-- How often a client operation calls its completion handler (OperationImpl::finished).
use tftp_senior_design.Base.{
  ℕ, Bool, true, false, List, [], arith, ◌+◌, ◌≡◌, ◌&&◌, ◌∷◌, if◌then◌else◌,
}
use tftp_senior_design.Tftp.{TransferStatus}
use tftp_senior_design.Network.{Event, sent, sent_to, connected, completed}
use tftp_senior_design.Clients.Operation.Keeps.{IsClosed, is_completion}

-- How often the completion handler was called.
abbrev pub completions : {E : Type 0} → List (Event E) → ℕ
completions [] = 0
completions (completed status ∷ t) = 1 + completions t
completions (sent bytes ∷ t) = completions t
completions (sent_to e bytes ∷ t) = completions t
completions (connected e ∷ t) = completions t

-- While the socket is open, the completion handler has not been called, and it was called once when
-- the socket is closed; without a completion handler it is never called.
abbrev pub IsToldOnce : {E : Type 0} → Bool → Bool → List (Event E) → Type 0
IsToldOnce is_open has_handler t =
    completions t ≡ (if is_open then 0 else if has_handler then 1 else 0)

-- Whatever the derived members.
abbrev pub ToldOnce : {E D : Type 0} → D → Bool → Bool → List (Event E) → Type 0
ToldOnce d o b t = IsToldOnce o b t

finished-IsToldOnce :
    {E : Type 0} (o b : Bool) (status : TransferStatus) (t : List (Event E))
    → IsToldOnce o b t
    → IsToldOnce false b (if o && b then completed status ∷ t else t)
finished-IsToldOnce true true status t p = omega (arith, p)
finished-IsToldOnce true false status t p = p
finished-IsToldOnce false true status t p = p
finished-IsToldOnce false false status t p = p

logged-IsToldOnce :
    {E : Type 0} (o b : Bool) (t : List (Event E)) (e : Event E)
    → is_completion e ≡ false
    → IsToldOnce o b t
    → IsToldOnce o b (e ∷ t)
logged-IsToldOnce o b t (completed status) x p = cc
logged-IsToldOnce o b t (sent bytes) x p = p
logged-IsToldOnce o b t (sent_to e bytes) x p = p
logged-IsToldOnce o b t (connected e) x p = p

pub ToldOnce-IsClosed : {E D : Type 0} (f : D → D) → IsClosed {E = E} f ToldOnce
ToldOnce-IsClosed f = record {
  finished = λ d o b status t p. finished-IsToldOnce o b status t p;
  logged = λ d o b t e x p. logged-IsToldOnce o b t e x p;
}
