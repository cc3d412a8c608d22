-- ===== src/Tftp/Contracts.antt =====
-- What a transfer relies on of a data handler: the contracts of lib/tftp/TransmitDataHandler.hpp and
-- ReceiveDataHandler.hpp.
use tftp_senior_design.Base.{ℕ, Bool, true, false, List, [], take, drop, ◌≡◌, ◌++◌}
use tftp_senior_design.Tftp.{TransmitDataHandler, ReceiveDataHandler}

-- A handler that hands out a file in blocks: what is left to be sent, and the whole file.
pub record Source {H : Type 0} (h : TransmitDataHandler H) : Type 0 where
  pub rest : H → List ℕ
  pub file : H → List ℕ
  pub start_lem : (a : H) → (h.start a).1 ≡ false → rest (h.start a).0 ≡ file a
  pub send_data_lem : (a : H) (n : ℕ) → (h.send_data a n).0 ≡ take n (rest a)
  pub rest_lem : (a : H) (n : ℕ) → rest (h.send_data a n).1 ≡ drop n (rest a)

-- A handler that collects what it is given, while it is live; `accepts` says that it is meant to receive.
pub record Sink {H : Type 0} (h : ReceiveDataHandler H) : Type 0 where
  pub got : H → List ℕ
  pub is_live : H → Bool
  pub accepts : H → Bool
  pub start_lem :
      (a : H)
      → accepts a ≡ true
      → (h.start a).1 ≡ false
      → (got (h.start a).0 ≡ []) × (is_live (h.start a).0 ≡ true)
  pub received_data_lem :
      (a : H) (c : List ℕ)
      → is_live a ≡ true
      → (got (h.received_data a c) ≡ got a ++ c) × (is_live (h.received_data a c) ≡ true)
  pub finished_lem : (a : H) → got (h.finished a) ≡ got a
