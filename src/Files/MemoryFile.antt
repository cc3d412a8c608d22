-- ===== src/Files/MemoryFile.antt =====
-- lib/tftp/files/MemoryFile.cpp. The iterator `dataPtr` is a position.
use tftp_senior_design.Base.{
  ℕ, Bool, true, false, Option, some, List, [], leb, length, take, drop, ◌+◌, ◌-◌, ◌∷◌, ◌++◌,
  if◌then◌else◌,
}
use tftp_senior_design.Tftp.{ReceiveDataHandler, TransmitDataHandler}
use tftp_senior_design.Files.{FileOperation, receiving_file, transmitting_file}

pub record MemoryFile : Type 0 where
  pub operation : FileOperation
  pub contents : List ℕ
  pub position : ℕ

-- The constructors, for a file to be received and for one to be transmitted.
unfoldable pub received_file : MemoryFile
received_file = record { operation = receiving_file; contents = []; position = 0 }

unfoldable pub transmitted_file : List ℕ → MemoryFile
transmitted_file bytes = record { operation = transmitting_file; contents = bytes; position = 0 }

-- `start`, `finished` and `receivedTransferSize`.
unfoldable pub start : MemoryFile → MemoryFile
start f = record f {
  contents = elim f.operation [ receiving_file ↦ [] | transmitting_file ↦ f.contents ];
  position = 0;
}

unfoldable pub finished : MemoryFile → MemoryFile
finished f = record f { position = 0 }

unfoldable pub received_transfer_size : MemoryFile → ℕ → Bool × MemoryFile
received_transfer_size f n = (true, f)

-- `receivedData`.
unfoldable pub received_data : MemoryFile → List ℕ → MemoryFile
received_data f [] = f
received_data f (b ∷ bytes) = record f { contents = f.contents ++ (b ∷ bytes); position = 0 }

-- `requestedTransferSize`.
unfoldable pub requested_transfer_size : MemoryFile → Option ℕ × MemoryFile
requested_transfer_size f = (some (length f.contents), f)

-- `sendData`: the bytes up to the end, or as many as are asked for.
unfoldable pub send_data : MemoryFile → ℕ → List ℕ × MemoryFile
send_data f n =
    let stop =
      if leb (length f.contents - f.position) n then length f.contents else f.position + n in
    (take (stop - f.position) (drop f.position f.contents), record f { position = stop })

-- The class as an implementation of both interfaces.
abbrev pub receiver : ReceiveDataHandler MemoryFile
receiver = record {
  start = λ f. (start f, false);
  finished = finished;
  received_transfer_size = received_transfer_size;
  received_data = received_data;
}

abbrev pub transmitter : TransmitDataHandler MemoryFile
transmitter = record {
  start = λ f. (start f, false);
  finished = finished;
  requested_transfer_size = requested_transfer_size;
  send_data = send_data;
}
