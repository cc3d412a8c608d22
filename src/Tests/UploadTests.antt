-- ===== src/Tests/UploadTests.antt =====
-- The theorems on a file that is written to a server, at concrete inputs.
use tftp_senior_design.Base.{ℕ, refl, true, false, List, [], take, ◌≡◌, ◌∷◌}
use tftp_senior_design.Network.{numbered}
use tftp_senior_design.Helper.{big_endian}
use tftp_senior_design.Packets.{default_data_size}
use tftp_senior_design.Files.StreamFile.{StreamFile}
use tftp_senior_design.Files.MemoryFile.{MemoryFile}
use tftp_senior_design.Files.Contracts.{stream_source, memory_sink}
use tftp_senior_design.Transfers.Blocks.{offset}
use tftp_senior_design.Transfers.Traces.{
  Move, to_client, to_server, client_timeout, server_timeout, has_succeeded,
}
use tftp_senior_design.Transfers.Upload.{Link}
use tftp_senior_design.Transfers.Upload.Files
use tftp_senior_design.Transfers.Upload.Files.{
  transferred, writer, receiver, writer-IsWriter, receiver-IsReceiver,
}
use tftp_senior_design.Transfers.Upload.Safety.{upload_server, upload_prefix}

-- The first acknowledgement comes twice, block 1 is lost and sent again, and arrives twice; the server
-- dallies.
abbrev schedule : List Move
schedule =
    to_client ∷ to_client ∷ client_timeout ∷ to_server ∷ to_server ∷ to_client ∷ server_timeout ∷ []

abbrev link : Link ℕ StreamFile MemoryFile
link = transferred big_endian numbered 65536 false true (7 ∷ 8 ∷ []) schedule

-- Both sides report success.
both_succeed : (has_succeeded link.server.trace ≡ true) × (has_succeeded link.client.trace ≡ true)
unfolding tftp_senior_design.Transfers.Upload.moves tftp_senior_design.Transfers.Upload.move
    tftp_senior_design.Transfers.Traces.in_flight tftp_senior_design.Transfers.Traces.has_succeeded
    tftp_senior_design.Servers.WriteOperation.Run.step
    tftp_senior_design.Servers.WriteOperation.Run.packet
    tftp_senior_design.Servers.Operation.Inputs.step
    tftp_senior_design.Servers.Operation.Inputs.expire
    tftp_senior_design.Servers.Operation.Inputs.arrive
    tftp_senior_design.Servers.Operation.Inputs.receive_handler
    tftp_senior_design.Servers.Operation.Inputs.timeout_handler
    tftp_senior_design.Servers.Operation.Inputs.timeout_dally_handler
    tftp_senior_design.Servers.Operation.Inputs.retransmit
    tftp_senior_design.Servers.WriteOperation.Start.start
    tftp_senior_design.Servers.WriteOperation.Start.answer_request
    tftp_senior_design.Packets.TftpOptions.is_set tftp_senior_design.Servers.Operation.initialise
    tftp_senior_design.Servers.Operation.set_completion_handler
    tftp_senior_design.Servers.Operation.set_remote
    tftp_senior_design.Servers.WriteOperation.set_dally
    tftp_senior_design.Servers.WriteOperation.create tftp_senior_design.Servers.Operation.create
    tftp_senior_design.Servers.Operation.receive tftp_senior_design.Servers.Operation.receive_dally
    tftp_senior_design.Servers.Operation.send tftp_senior_design.Servers.Operation.prepare
    tftp_senior_design.Servers.Operation.finished
    tftp_senior_design.Servers.WriteOperation.Transfer.data_packet
    tftp_senior_design.Servers.WriteOperation.Transfer.accept_block
    tftp_senior_design.Servers.WriteOperation.Transfer.after_ack
    tftp_senior_design.Clients.WriteOperation.Run.step
    tftp_senior_design.Clients.WriteOperation.Run.packet
    tftp_senior_design.Clients.Operation.Inputs.step
    tftp_senior_design.Clients.Operation.Inputs.arrive
    tftp_senior_design.Clients.Operation.Inputs.receive_first_handler
    tftp_senior_design.Clients.Operation.Inputs.receive_handler
    tftp_senior_design.Clients.Operation.Inputs.accept_source
    tftp_senior_design.Clients.Operation.Inputs.initialise
    tftp_senior_design.Clients.Operation.Inputs.expire
    tftp_senior_design.Clients.Operation.Inputs.timeout_handler
    tftp_senior_design.Clients.Operation.Inputs.retransmit
    tftp_senior_design.Clients.WriteOperation.request
    tftp_senior_design.Clients.WriteOperation.reset
    tftp_senior_design.Clients.WriteOperation.ask_transfer_size
    tftp_senior_design.Clients.WriteOperation.send_request
    tftp_senior_design.Clients.WriteOperation.create tftp_senior_design.Clients.Operation.create
    tftp_senior_design.Clients.Operation.send_first
    tftp_senior_design.Clients.Operation.receive_first tftp_senior_design.Clients.Operation.send
    tftp_senior_design.Clients.Operation.receive tftp_senior_design.Clients.Operation.prepare
    tftp_senior_design.Clients.Operation.finished
    tftp_senior_design.Clients.WriteOperation.Transfer.send_data
    tftp_senior_design.Clients.WriteOperation.Transfer.next_block
    tftp_senior_design.Clients.WriteOperation.Transfer.continue_transfer
    tftp_senior_design.Clients.WriteOperation.Transfer.acknowledged
    tftp_senior_design.Clients.WriteOperation.Transfer.acknowledgement_packet
    tftp_senior_design.Packets.Handler.packet tftp_senior_design.Packets.Header.packet_type
    tftp_senior_design.Packets.Header.type_of_opcode tftp_senior_design.Packets.Header.decode_header
    tftp_senior_design.Packets.Header.insert_header tftp_senior_design.Packets.DataBlock.encode
    tftp_senior_design.Packets.DataBlock.decode tftp_senior_design.Packets.DataBlock.decode_body
    tftp_senior_design.Packets.Acknowledgement.encode
    tftp_senior_design.Packets.Acknowledgement.decode
    tftp_senior_design.Packets.Acknowledgement.decode_body tftp_senior_design.Packets.Packet.encode
    tftp_senior_design.Packets.Packet.kind tftp_senior_design.Packets.BlockNumber.next
    tftp_senior_design.Packets.BlockNumber.increment
    tftp_senior_design.Files.MemoryFile.received_file tftp_senior_design.Files.MemoryFile.start
    tftp_senior_design.Files.MemoryFile.received_data tftp_senior_design.Files.MemoryFile.finished
    tftp_senior_design.Files.StreamFile.start tftp_senior_design.Files.StreamFile.send_data
    tftp_senior_design.Files.StreamFile.finished
both_succeed = (refl, refl)

write_file_example : link.server.derived.handler.contents ≡ 7 ∷ 8 ∷ []
write_file_example =
    Files.write_file big_endian numbered 65536 false true (7 ∷ 8 ∷ []) schedule refl both_succeed.1

upload_server_example : link.server.derived.handler.contents ≡ 7 ∷ 8 ∷ []
unfolding memory_sink
upload_server_example =
    upload_server big_endian numbered 65536 stream_source memory_sink (7 ∷ 8 ∷ []) false schedule
      (writer big_endian numbered 65536 false true (7 ∷ 8 ∷ []))
      (receiver big_endian numbered 65536 false true (7 ∷ 8 ∷ []))
      (writer-IsWriter big_endian numbered 65536 false true (7 ∷ 8 ∷ []) refl)
      (receiver-IsReceiver big_endian numbered 65536 false true (7 ∷ 8 ∷ [])) both_succeed.0

upload_prefix_example :
    (k : ℕ) × (link.server.derived.handler.contents
      ≡ take (offset default_data_size k) (7 ∷ 8 ∷ []))
unfolding memory_sink
upload_prefix_example =
    upload_prefix big_endian numbered 65536 stream_source memory_sink (7 ∷ 8 ∷ []) false schedule
      (writer big_endian numbered 65536 false true (7 ∷ 8 ∷ []))
      (receiver big_endian numbered 65536 false true (7 ∷ 8 ∷ []))
      (writer-IsWriter big_endian numbered 65536 false true (7 ∷ 8 ∷ []) refl)
      (receiver-IsReceiver big_endian numbered 65536 false true (7 ∷ 8 ∷ []))
