-- ===== src/Files/NullSinkFile.antt =====
-- lib/tftp/files/NullSinkFile.cpp: what is received is dropped.
use tftp_senior_design.Base.{ℕ, Bool, true, false, Option, none, some, List, leb}
use tftp_senior_design.Tftp.{ReceiveDataHandler}

pub record NullSinkFile : Type 0 where
  pub size : Option ℕ

-- The constructors.
unfoldable pub unlimited : NullSinkFile
unlimited = record { size = none }

unfoldable pub limited : ℕ → NullSinkFile
limited n = record { size = some n }

-- `receivedTransferSize`.
unfoldable pub received_transfer_size : NullSinkFile → ℕ → Bool × NullSinkFile
received_transfer_size f n = (elim f.size [ none ↦ true | some limit ↦ leb n limit ], f)

-- `receivedData`.
unfoldable pub received_data : NullSinkFile → List ℕ → NullSinkFile
received_data f bytes = f

abbrev pub sink : ReceiveDataHandler NullSinkFile
sink = record {
  start = λ f. (f, false);
  finished = λ f. f;
  received_transfer_size = received_transfer_size;
  received_data = received_data;
}
