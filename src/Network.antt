-- ===== src/Network.antt =====
-- What the operations use of boost::asio: endpoints, and what a socket and a timer report. The
-- library is not part of the sources: its endpoints are a parameter, and whether a call throws
-- `system_error` is an input of the model.
use tftp_senior_design.Base.{ℕ, suc, refl, Bool, true, List, [], ◌/◌, ◌≡◌, ◌∷◌, ◌==◌}
use tftp_senior_design.Tftp.{TransferStatus}

-- Endpoints: the default constructed one, and the tests that the operations make.
pub record Network (E : Type 0) : Type 0 where
  pub no_endpoint : E
  pub is_no_endpoint : E → Bool
  pub same_address : E → E → Bool
  pub is_unspecified : E → Bool
  pub is_no_endpoint_lem : is_no_endpoint no_endpoint ≡ true

-- The error code that a completion handler is called with.
pub data Completion : Type 0 where
  success operation_aborted failure : Completion

-- What an operation does that can be seen from outside.
pub data Event (E : Type 0) : Type 0 where
  sent : List ℕ → Event E
  sent_to : E → List ℕ → Event E
  connected : E → Event E
  completed : TransferStatus → Event E

-- How often the completion handler was called.
unfoldable pub completions : {E : Type 0} → List (Event E) → ℕ
completions [] = 0
completions (completed status ∷ t) = suc (completions t)
completions (sent packet ∷ t) = completions t
completions (sent_to e packet ∷ t) = completions t
completions (connected e ∷ t) = completions t

-- Numbered endpoints: address times 65536, plus port.
abbrev pub numbered : Network ℕ
numbered = record {
  no_endpoint = 0;
  is_no_endpoint = λ e. e == 0;
  same_address = λ a b. (a / 65536) == (b / 65536);
  is_unspecified = λ e. (e / 65536) == 0;
  is_no_endpoint_lem = refl;
}
