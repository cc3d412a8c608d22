-- ===== src/Tests/ServerTests.antt =====
-- The theorems on lib/tftp/servers/implementation at concrete inputs.
use tftp_senior_design.Base.{
  ℕ, refl, Bool, true, false, none, some, List, [], arith, length, ◌≤◌, ◌≡◌, ◌∷◌, ◌==◌,
}
use tftp_senior_design.Text.{text}
use tftp_senior_design.Text.Order.{compare_text}
use tftp_senior_design.Tftp.{TransmitDataHandler, read}
use tftp_senior_design.Network.{numbered, success, sent}
use tftp_senior_design.Helper.{big_endian}
use tftp_senior_design.Packets.{TransferMode, default_max_packet_size}
use tftp_senior_design.Packets.OptionMap.{Options}
use tftp_senior_design.Packets.Packet.{encode}
use tftp_senior_design.Packets.Request
use tftp_senior_design.Packets.Request.{RequestPacket, mode_text}
use tftp_senior_design.Packets.Header.{insert_header}
use tftp_senior_design.Packets.Options.{raw_options}
use tftp_senior_design.Servers.ReadOperation
use tftp_senior_design.Servers.Bounds
use tftp_senior_design.Servers.Operation.{Operation, transfer_timer}
use tftp_senior_design.Servers.Operation
use tftp_senior_design.Servers.Operation.Inputs.{expires, run}
use tftp_senior_design.Servers.Operation.Retries
use tftp_senior_design.Servers.Operation.Retries.{IsGivenUp}
use tftp_senior_design.Servers.Server.{Server, tftp_options, handed, request_of}
use tftp_senior_design.Servers.Server.Run.{arrive, serve}
use tftp_senior_design.Servers.Server.Decoding
use tftp_senior_design.Servers.Server.Decoding.{IsSplit}
use tftp_senior_design.Servers.Server.Serving
use tftp_senior_design.Servers.Server.Serving.{IsServing}
use tftp_senior_design.Servers.Server.Requests
use tftp_senior_design.Servers.Server.Requests.{request_packet}

-- A server with a request handler or without one, which receives; sending its first error fails.
abbrev receiving_server : Bool → Server ℕ
receiving_server b = record {
  has_request_handler = b;
  server_address = 0;
  tftp_timeout_default = none;
  tftp_retries_default = none;
  dally_default = none;
  options_configuration_default = none;
  local_default = 0;
  transmit_statistic = [];
  receive_statistic = [];
  receive_packet_size = default_max_packet_size;
  receiving = true;
  escaped = false;
  receive_faults = λ k. false;
  faults = λ k. k == 1;
  trace = [];
}

-- The name of the block size option, and another one.
abbrev options : Options
options = (text "blksize", text "1024") ∷ (text "x", text "y") ∷ []

abbrev request : RequestPacket
request = record { filename = text "f"; mode = TransferMode.octet; options = [] }

-- The request as it is written fits into the buffer of the server.
request_fits : length (encode big_endian (request_packet read request)) ≤ default_max_packet_size
unfolding text encode Request.encode insert_header mode_text raw_options
request_fits = omega arith

tftp_options_example : IsSplit options (tftp_options options).0 (tftp_options options).1
unfolding text compare_text
tftp_options_example = Decoding.tftp_options_lem options ((refl, tt), (tt, tt))

serve-IsServing_example :
    IsServing
      (serve big_endian ((1, 0 ∷ 4 ∷ 0 ∷ 1 ∷ []) ∷ (2, 9 ∷ []) ∷ []) (receiving_server true))
    × ((serve big_endian
          ((1, 0 ∷ 4 ∷ 0 ∷ 1 ∷ []) ∷ (2, 9 ∷ []) ∷ [])
          (receiving_server true)).receiving
        ≡ true)
serve-IsServing_example =
    Serving.serve-IsServing big_endian ((1, 0 ∷ 4 ∷ 0 ∷ 1 ∷ []) ∷ (2, 9 ∷ []) ∷ [])
      (receiving_server true)
      (record { handler_set = refl; unescaped = refl; faultless = λ n. refl }) refl

arrive-request_example :
    (arrive big_endian 1
      (encode big_endian (request_packet read request))
      (receiving_server true)).trace
    ≡ handed (request_of read 1 request) ∷ []
unfolding text
arrive-request_example =
    Requests.arrive-request big_endian read 1 request (receiving_server true) refl refl request_fits
      (omega arith, tt, tt)

arrive-unset_example :
    ((arrive big_endian 1
        (encode big_endian (request_packet read request))
        (receiving_server false)).escaped
      ≡ true)
    × ((arrive big_endian 1
          (encode big_endian (request_packet read request))
          (receiving_server false)).receiving
        ≡ false)
unfolding text
arrive-unset_example =
    Requests.arrive-unset big_endian read 1 request (receiving_server false) refl refl request_fits
      (omega arith, tt, tt)

-- A server operation that sent a block once, and may send it once more.
unfoldable waiting : Operation ℕ ℕ
unfolding Operation.create
waiting = record (Operation.create numbered (λ n. false) 0) {
  has_completion_handler = true;
  transmit_packet = 0 ∷ 3 ∷ 0 ∷ 1 ∷ [];
  transmit_counter = 1;
  timing = some (transfer_timer, 2);
  is_open = true;
}

run-server_timeouts_example :
    IsGivenUp
      (sent (0 ∷ 3 ∷ 0 ∷ 1 ∷ []) ∷ [])
      (run big_endian (λ d. d) (λ e bytes s. s) (expires success ∷ expires success ∷ []) waiting)
unfolding waiting Operation.create
run-server_timeouts_example =
    Retries.run-server_timeouts big_endian (λ d. d) (λ e bytes s. s) (0 ∷ 3 ∷ 0 ∷ 1 ∷ []) 1 1 1 []
      waiting refl
      (record {
        seconds = 2;
        armed = refl;
        sent_packet = refl;
        allowed = refl;
        counted = refl;
        traced = refl;
        opened = refl;
        observed = refl;
        faultless = λ n. refl;
      })

-- A read operation of a request with the options above, and a configured block size of 600.
unfoldable negotiating : ReadOperation.State ℕ (List ℕ)
unfolding ReadOperation.create Operation.create
negotiating =
    let s = ReadOperation.create numbered (λ n. false) [] in
    record s {
      derived = record s.derived {
        options_configuration = record {
          handle_transfer_size_option = false;
          block_size_option = some 600;
          timeout_option = none;
        };
        client_options = (tftp_options options).0;
      };
    }

abbrev no_data : TransmitDataHandler (List ℕ)
no_data = record {
  start = λ m. (m, false);
  finished = λ m. m;
  requested_transfer_size = λ m. (none, m);
  send_data = λ m n. ([], m);
}
