-- ===== src/Tests/ClientTests.antt =====
-- The theorems on lib/tftp/clients/implementation at concrete inputs.
use tftp_senior_design.Base.{
  ℕ, refl, inr, true, false, some, List, [], arith, length, take, drop, ◌∷◌, ◌++◌,
}
use tftp_senior_design.Tftp.{ReceiveDataHandler, TransmitDataHandler}
use tftp_senior_design.Network.{numbered, success, sent, sent_to}
use tftp_senior_design.Helper.{big_endian}
use tftp_senior_design.Packets.Acknowledgement
use tftp_senior_design.Packets.DataBlock
use tftp_senior_design.Packets.Header.{insert_header}
use tftp_senior_design.Packets.Packet.{encode}
use tftp_senior_design.Clients.Operation.{
  Operation, Input, arrives, expires, expired_before, aborts, transfer_timer, receiver, first_timer,
}
use tftp_senior_design.Clients.Operation.Inputs.{run}
use tftp_senior_design.Clients.Operation
use tftp_senior_design.Clients.Operation.Retries
use tftp_senior_design.Clients.Operation.Retries.{IsWaiting, IsGivenUp}
use tftp_senior_design.Clients.ReadOperation
use tftp_senior_design.Clients.ReadOperation.{State}
use tftp_senior_design.Clients.ReadOperation.Blocks
use tftp_senior_design.Clients.ReadOperation.Blocks.{recording, IsTransfer, IsFresh}
use tftp_senior_design.Clients.ReadOperation.Run
use tftp_senior_design.Clients.ReadOperation.Duplicates as Repeats
use tftp_senior_design.Clients.ReadOperation.Duplicates.{IsReceived}
use tftp_senior_design.Packets.DataBlock.{DataPacket}
use tftp_senior_design.Clients.ReadOperation.Told as ReadTold
use tftp_senior_design.Clients.WriteOperation.Told as WriteTold
use tftp_senior_design.Clients.WriteOperation
use tftp_senior_design.Clients.WriteOperation.Run as WriteRun
use tftp_senior_design.Clients.WriteOperation.Blocks as Sent
use tftp_senior_design.Clients.WriteOperation.Duplicates
use tftp_senior_design.Clients.WriteOperation.Duplicates.{IsAcknowledged, IsUntouched}

-- An operation that sent its request once, and may send it once more.
unfoldable waiting : Operation ℕ ℕ
unfolding Operation.create
waiting = record (Operation.create numbered (λ n. false) 0) {
  has_completion_handler = true;
  remote = 3;
  transmit_packet = 0 ∷ 1 ∷ 9 ∷ [];
  transmit_counter = 1;
  timing = some (first_timer, 2);
  is_open = true;
}

run-timeouts_example : IsGivenUp (sent_to 3 (0 ∷ 1 ∷ 9 ∷ []) ∷ []) (
    run big_endian numbered
      (λ d. d)
      (λ e bytes s. s)
      (expires success ∷ expires success ∷ [])
      waiting)
unfolding waiting Operation.create
run-timeouts_example =
    Retries.run-timeouts big_endian numbered (λ d. d) (λ e bytes s. s) true 3 (0 ∷ 1 ∷ 9 ∷ []) 1 1 1
      [] waiting refl
      (record {
        seconds = 2;
        armed = refl;
        addressed = refl;
        sent_packet = refl;
        allowed = refl;
        counted = refl;
        traced = refl;
        opened = refl;
        observed = refl;
        faultless = λ n. refl;
      })

-- A data handler that appends what it receives.
abbrev memory : ReceiveDataHandler (List ℕ)
memory = record {
  start = λ m. ([], false);
  finished = λ m. m;
  received_transfer_size = λ m n. (true, m);
  received_data = λ m c. m ++ c;
}

abbrev reading : State ℕ (List ℕ × List (List ℕ))
reading = ReadOperation.create numbered (λ n. false) ([], [])

-- Block 1 arrives twice, the timer expires, and a timer that had expired before is heard of.
abbrev arrivals : List (Input ℕ)
arrivals =
    arrives success 1 (0 ∷ 3 ∷ 0 ∷ 1 ∷ 9 ∷ [])
    ∷ arrives success 1 (0 ∷ 3 ∷ 0 ∷ 1 ∷ 9 ∷ [])
    ∷ expires success
    ∷ expired_before first_timer
    ∷ []

request-IsTransfer_example :
    IsTransfer
      (Run.run big_endian numbered
        (recording memory)
        arrivals
        (ReadOperation.request big_endian numbered (recording memory) reading)).derived
unfolding ReadOperation.create Operation.create
request-IsTransfer_example =
    Blocks.request-IsTransfer big_endian numbered memory arrivals reading
      (record { empty = refl; zero_number = refl; default_size = refl })

-- A data handler that hands out a text.
abbrev source : TransmitDataHandler (List ℕ)
source = record {
  start = λ m. (m, false);
  finished = λ m. m;
  requested_transfer_size = λ m. (some (length m), m);
  send_data = λ m n. (take n m, drop n m);
}

abbrev sending : WriteOperation.State ℕ (List ℕ × List (ℕ × List ℕ))
sending = WriteOperation.create numbered (λ n. false) (7 ∷ 8 ∷ [], [])

request-IsSending_example :
    Sent.IsSending
      (WriteRun.run big_endian numbered
        (Sent.recording source)
        (arrives success 1 (0 ∷ 4 ∷ 0 ∷ 0 ∷ []) ∷ arrives success 1 (0 ∷ 4 ∷ 0 ∷ 1 ∷ []) ∷ [])
        (WriteOperation.request big_endian numbered (Sent.recording source) sending)).derived
unfolding WriteOperation.create Operation.create
request-IsSending_example =
    Sent.request-IsSending big_endian numbered source
      (arrives success 1 (0 ∷ 4 ∷ 0 ∷ 0 ∷ []) ∷ arrives success 1 (0 ∷ 4 ∷ 0 ∷ 1 ∷ []) ∷ []) sending
      (record { empty = refl; zero_number = refl; default_size = refl })

-- A write operation that has sent block 1, and awaits its acknowledgement.
unfoldable block_sent : WriteOperation.State ℕ (List ℕ)
unfolding WriteOperation.create Operation.create
block_sent =
    let s = WriteOperation.create numbered (λ n. false) (7 ∷ 8 ∷ []) in
    record s {
      receiving = some receiver;
      derived = record s.derived { last_transmitted_block_number = 1 };
    }

run-repeated_example :
    IsAcknowledged 0 (
      WriteRun.run big_endian numbered source
        (arrives success 1 (Duplicates.repeated big_endian numbered source 0) ∷ [])
        block_sent)
    × IsUntouched block_sent (
        WriteRun.run big_endian numbered source
          (arrives success 1 (Duplicates.repeated big_endian numbered source 0) ∷ [])
          block_sent)
unfolding block_sent WriteOperation.create Operation.create
run-repeated_example =
    Duplicates.run-repeated big_endian numbered source 0 1 1 block_sent (omega arith)
      (record { armed = refl; acknowledged = refl; faultless = λ k. refl })

-- A read operation that has received a last block of 2 bytes, and dallies.
abbrev last_block : DataPacket
last_block = record { block_number = 1; contents = 9 ∷ 9 ∷ [] }

unfoldable block_received : State ℕ (List ℕ)
unfolding ReadOperation.create Operation.create
block_received =
    let s = ReadOperation.create numbered (λ n. false) (9 ∷ 9 ∷ []) in
    record s {
      receiving = some receiver;
      derived = record s.derived {
        receive_data_size = 8;
        dally = true;
        last_received_block_number = 1;
      };
    }

run-repeated_block_example :
    IsReceived last_block block_received.derived
      (sent (0 ∷ 4 ∷ 0 ∷ 1 ∷ []) ∷ sent (0 ∷ 4 ∷ 0 ∷ 1 ∷ []) ∷ [])
      (Run.run big_endian numbered memory
        (arrives success 1 (0 ∷ 3 ∷ 0 ∷ 1 ∷ 9 ∷ 9 ∷ [])
          ∷ arrives success 1 (0 ∷ 3 ∷ 0 ∷ 1 ∷ 9 ∷ 9 ∷ [])
          ∷ [])
        block_received)
unfolding block_received ReadOperation.create Operation.create encode DataBlock.encode
    Acknowledgement.encode insert_header
run-repeated_block_example =
    Repeats.run-repeated_block big_endian numbered memory last_block block_received.derived 2 [] 1
      block_received (omega arith)
      (record {
        armed = refl;
        members = refl;
        received = refl;
        goes_on = inr refl;
        traced = refl;
        faultless = λ k. refl;
      })

-- Block 1 arrives, the operation is aborted, and a timer that had expired before is heard of.
abbrev aborted_inputs : List (Input ℕ)
aborted_inputs =
    arrives success 1 (0 ∷ 3 ∷ 0 ∷ 1 ∷ 9 ∷ []) ∷ aborts ∷ expired_before transfer_timer ∷ []
