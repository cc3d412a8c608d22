-- ===== src/Files/StreamFile.antt =====
-- lib/tftp/files/StreamFile.cpp over a std::fstream: the bytes of the file on disk, whether it can be
-- opened, whether the stream is open, whether its fail bit is set, and where it stands. What is
-- written to an open stream reaches the file.
use tftp_senior_design.Base.{
  ℕ, Bool, true, false, not, Option, none, some, List, [], leb, length, take, drop, ◌+◌, ◌&&◌, ◌++◌,
  if◌then◌else◌,
}
use tftp_senior_design.Tftp.{ReceiveDataHandler, TransmitDataHandler}
use tftp_senior_design.Files.{FileOperation, receiving_file, transmitting_file}

pub record StreamFile : Type 0 where
  pub operation : FileOperation
  pub size : Option ℕ
  pub openable : Bool
  pub is_open : Bool
  pub has_failed : Bool
  pub contents : List ℕ
  pub position : ℕ

-- The constructors, for a file that can be opened and has the bytes `old`.
abbrev pub on_disk : FileOperation → Option ℕ → List ℕ → StreamFile
on_disk operation size old = record {
  operation = operation;
  size = size;
  openable = true;
  is_open = false;
  has_failed = false;
  contents = old;
  position = 0;
}

-- `start`, which also answers whether it threw. Opening a stream that is open fails, and sets the
-- fail bit.
unfoldable pub start : StreamFile → StreamFile × Bool
start f =
    if f.openable && not f.is_open
    then (
      record f {
        is_open = true;
        has_failed = false;
        contents = elim f.operation [ receiving_file ↦ [] | transmitting_file ↦ f.contents ];
        position = 0;
      },
      false,
    )
    else (record f { has_failed = true }, true)

-- `finished`.
unfoldable pub finished : StreamFile → StreamFile
finished f = record f { is_open = false }

-- `receivedTransferSize`.
unfoldable pub received_transfer_size : StreamFile → ℕ → Bool × StreamFile
received_transfer_size f n = (elim f.size [ none ↦ true | some limit ↦ leb n limit ], f)

-- `receivedData`.
unfoldable pub received_data : StreamFile → List ℕ → StreamFile
received_data f bytes =
    if f.is_open && not f.has_failed then record f { contents = f.contents ++ bytes } else f

-- `requestedTransferSize`.
unfoldable pub requested_transfer_size : StreamFile → Option ℕ × StreamFile
requested_transfer_size f = (f.size, f)

-- `sendData`: as many bytes as the stream could read.
unfoldable pub send_data : StreamFile → ℕ → List ℕ × StreamFile
send_data f n =
    if f.is_open && not f.has_failed
    then (let bytes = take n (drop f.position f.contents) in
        (bytes, record f { position = f.position + length bytes }))
    else ([], f)

abbrev pub receiver : ReceiveDataHandler StreamFile
receiver = record {
  start = start;
  finished = finished;
  received_transfer_size = received_transfer_size;
  received_data = received_data;
}

abbrev pub transmitter : TransmitDataHandler StreamFile
transmitter = record {
  start = start;
  finished = finished;
  requested_transfer_size = requested_transfer_size;
  send_data = send_data;
}
