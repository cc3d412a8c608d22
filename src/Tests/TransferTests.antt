-- ===== src/Tests/TransferTests.antt =====
-- The theorems on transfers at concrete inputs.
use tftp_senior_design.Base.{ℕ, refl, true, false, List, [], take, ◌≡◌, ◌∷◌}
use tftp_senior_design.Network.{numbered}
use tftp_senior_design.Helper.{big_endian}
use tftp_senior_design.Transfers.Download.{Link}
use tftp_senior_design.Transfers.Traces.{
  Move, to_client, to_server, client_timeout, server_timeout, has_succeeded,
}
use tftp_senior_design.Transfers.Download.Files
use tftp_senior_design.Transfers.Download.Files.{
  transferred, reader, sender, reader-IsReader, sender-IsSender,
}
use tftp_senior_design.Transfers.Download.Safety.{download_client, download_prefix}
use tftp_senior_design.Transfers.Blocks.{offset}
use tftp_senior_design.Packets.{default_data_size}
use tftp_senior_design.Files.StreamFile.{StreamFile}
use tftp_senior_design.Files.MemoryFile.{MemoryFile}
use tftp_senior_design.Files.Contracts.{stream_sink, memory_source}

-- Block 1 is lost, sent again and acknowledged twice.
abbrev schedule : List Move
schedule = server_timeout ∷ to_client ∷ to_client ∷ to_server ∷ []

abbrev link : Link ℕ StreamFile MemoryFile
link = transferred big_endian numbered 65536 false (7 ∷ 8 ∷ []) [] schedule

-- Both sides report success.
both_succeed : (has_succeeded link.server.trace ≡ true) × (has_succeeded link.client.trace ≡ true)
unfolding tftp_senior_design.Transfers.Download.moves tftp_senior_design.Transfers.Download.move
    tftp_senior_design.Transfers.Traces.in_flight tftp_senior_design.Transfers.Traces.has_succeeded
    tftp_senior_design.Servers.ReadOperation.Run.step
    tftp_senior_design.Servers.ReadOperation.Run.packet
    tftp_senior_design.Servers.Operation.Inputs.step
    tftp_senior_design.Servers.Operation.Inputs.expire
    tftp_senior_design.Servers.Operation.Inputs.arrive
    tftp_senior_design.Servers.Operation.Inputs.receive_handler
    tftp_senior_design.Servers.Operation.Inputs.timeout_handler
    tftp_senior_design.Servers.Operation.Inputs.retransmit
    tftp_senior_design.Servers.ReadOperation.Start.start
    tftp_senior_design.Servers.ReadOperation.Start.answer_request
    tftp_senior_design.Packets.TftpOptions.is_set tftp_senior_design.Servers.Operation.initialise
    tftp_senior_design.Servers.Operation.set_completion_handler
    tftp_senior_design.Servers.Operation.set_remote tftp_senior_design.Servers.ReadOperation.create
    tftp_senior_design.Servers.Operation.create tftp_senior_design.Servers.Operation.receive
    tftp_senior_design.Servers.Operation.send tftp_senior_design.Servers.Operation.prepare
    tftp_senior_design.Servers.Operation.finished
    tftp_senior_design.Servers.ReadOperation.Transfer.send_data
    tftp_senior_design.Servers.ReadOperation.Transfer.next_block
    tftp_senior_design.Servers.ReadOperation.Transfer.acknowledgement_packet
    tftp_senior_design.Servers.ReadOperation.Transfer.continue_transfer
    tftp_senior_design.Clients.ReadOperation.Run.step
    tftp_senior_design.Clients.ReadOperation.Run.packet
    tftp_senior_design.Clients.Operation.Inputs.step
    tftp_senior_design.Clients.Operation.Inputs.arrive
    tftp_senior_design.Clients.Operation.Inputs.receive_first_handler
    tftp_senior_design.Clients.Operation.Inputs.receive_handler
    tftp_senior_design.Clients.Operation.Inputs.accept_source
    tftp_senior_design.Clients.Operation.Inputs.initialise
    tftp_senior_design.Clients.ReadOperation.request
    tftp_senior_design.Clients.ReadOperation.send_request
    tftp_senior_design.Clients.ReadOperation.create tftp_senior_design.Clients.Operation.create
    tftp_senior_design.Clients.Operation.send_first
    tftp_senior_design.Clients.Operation.receive_first tftp_senior_design.Clients.Operation.send
    tftp_senior_design.Clients.Operation.receive tftp_senior_design.Clients.Operation.prepare
    tftp_senior_design.Clients.Operation.finished
    tftp_senior_design.Clients.ReadOperation.Transfer.data_packet
    tftp_senior_design.Clients.ReadOperation.Transfer.first_block
    tftp_senior_design.Clients.ReadOperation.Transfer.accept_block
    tftp_senior_design.Clients.ReadOperation.Transfer.after_ack
    tftp_senior_design.Packets.Handler.packet tftp_senior_design.Packets.Header.packet_type
    tftp_senior_design.Packets.Header.type_of_opcode tftp_senior_design.Packets.Header.decode_header
    tftp_senior_design.Packets.Header.insert_header tftp_senior_design.Packets.DataBlock.encode
    tftp_senior_design.Packets.DataBlock.decode tftp_senior_design.Packets.DataBlock.decode_body
    tftp_senior_design.Packets.Acknowledgement.encode
    tftp_senior_design.Packets.Acknowledgement.decode
    tftp_senior_design.Packets.Acknowledgement.decode_body tftp_senior_design.Packets.Packet.encode
    tftp_senior_design.Packets.Packet.kind tftp_senior_design.Packets.BlockNumber.next
    tftp_senior_design.Packets.BlockNumber.increment
    tftp_senior_design.Files.MemoryFile.transmitted_file tftp_senior_design.Files.MemoryFile.start
    tftp_senior_design.Files.MemoryFile.send_data tftp_senior_design.Files.MemoryFile.finished
    tftp_senior_design.Files.StreamFile.start tftp_senior_design.Files.StreamFile.received_data
    tftp_senior_design.Files.StreamFile.finished
both_succeed = (refl, refl)

read_file_example : link.client.derived.handler.contents ≡ 7 ∷ 8 ∷ []
read_file_example =
    Files.read_file big_endian numbered 65536 false (7 ∷ 8 ∷ []) [] schedule refl both_succeed.0

download_client_example : link.client.derived.handler.contents ≡ 7 ∷ 8 ∷ []
unfolding stream_sink
download_client_example =
    download_client big_endian numbered 65536 stream_sink memory_source (7 ∷ 8 ∷ []) false schedule
      (reader big_endian numbered 65536 false (7 ∷ 8 ∷ []) [])
      (sender big_endian numbered 65536 false (7 ∷ 8 ∷ []) [])
      (reader-IsReader big_endian numbered 65536 false (7 ∷ 8 ∷ []) [] refl)
      (sender-IsSender big_endian numbered 65536 false (7 ∷ 8 ∷ []) []) both_succeed.1

download_prefix_example :
    (k : ℕ) × (link.client.derived.handler.contents
      ≡ take (offset default_data_size k) (7 ∷ 8 ∷ []))
unfolding stream_sink
download_prefix_example =
    download_prefix big_endian numbered 65536 stream_sink memory_source (7 ∷ 8 ∷ []) false schedule
      (reader big_endian numbered 65536 false (7 ∷ 8 ∷ []) [])
      (sender big_endian numbered 65536 false (7 ∷ 8 ∷ []) [])
      (reader-IsReader big_endian numbered 65536 false (7 ∷ 8 ∷ []) [] refl)
      (sender-IsSender big_endian numbered 65536 false (7 ∷ 8 ∷ []) [])
