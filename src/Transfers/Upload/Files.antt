-- ===== src/Transfers/Upload/Files.antt =====
-- A client that writes a file on disk to a server, which keeps it in memory, both made by the library's
-- constructors.
use tftp_senior_design.Base.{ℕ, refl, Bool, true, false, none, List, ◌≡◌}
use tftp_senior_design.Network.{Network}
use tftp_senior_design.Helper.{RawData}
use tftp_senior_design.Packets.TftpOptions.{is_set}
use tftp_senior_design.Files.{transmitting_file}
use tftp_senior_design.Files.MemoryFile
use tftp_senior_design.Files.MemoryFile.{MemoryFile, received_file}
use tftp_senior_design.Files.StreamFile
use tftp_senior_design.Files.StreamFile.{StreamFile, on_disk}
use tftp_senior_design.Files.Contracts.{memory_sink, stream_source}
use tftp_senior_design.Clients.Operation
use tftp_senior_design.Clients.WriteOperation
use tftp_senior_design.Servers.Operation as ServerBase
use tftp_senior_design.Servers.WriteOperation as ServerOperation
use tftp_senior_design.Transfers.Traces.{Move, has_succeeded}
use tftp_senior_design.Transfers.Upload.{Link}
use tftp_senior_design.Transfers.Upload.Safety.{IsWriter, IsReceiver, upload, upload_client}

module _ (raw : RawData) {E : Type 0} (net : Network E) (peer : E) (is_tftp dally : Bool)
    (bytes : List ℕ) where
  -- The operations of both sides, where no call throws.
  abbrev pub writer : WriteOperation.State E StreamFile
  writer = record (WriteOperation.create net (λ k. false) (on_disk transmitting_file none bytes)) {
    has_completion_handler = true;
    remote = peer;
  }

  abbrev pub receiver : ServerOperation.State E MemoryFile
  receiver = ServerOperation.set_dally dally (
      ServerBase.set_completion_handler true
        (ServerBase.set_remote peer (ServerOperation.create net (λ k. false) received_file)))

  abbrev pub transferred : List Move → Link E StreamFile MemoryFile
  transferred ms =
      upload raw net peer StreamFile.transmitter MemoryFile.receiver is_tftp ms writer receiver

  pub writer-IsWriter :
      net.same_address peer peer ≡ true
      → IsWriter raw net peer stream_source memory_sink bytes writer
  unfolding stream_source WriteOperation.create Operation.create StreamFile.start
  writer-IsWriter same = record {
    untraced = refl;
    plain = refl;
    no_transfer_size = refl;
    expected = same;
    starts = refl;
    is_file = refl;
    faultless = λ k. refl;
  }

  pub receiver-IsReceiver : IsReceiver raw net peer stream_source memory_sink receiver
  unfolding memory_sink ServerOperation.create ServerOperation.set_dally ServerBase.create
      ServerBase.set_remote ServerBase.set_completion_handler received_file MemoryFile.start is_set
  receiver-IsReceiver = record {
    untraced = refl;
    no_options = refl;
    no_more = refl;
    received = refl;
    default_size = refl;
    accepts = refl;
    starts = refl;
    faultless = λ k. refl;
  }

  -- When the client reports success, the file in memory of the server has the bytes of the file on disk,
  -- in spite of lost and repeated packets and timeouts, whether the server dallies or not. The
  -- address of the host is one that the client accepts answers of, and no call throws.
  pub write_file :
      (ms : List Move)
      → net.same_address peer peer ≡ true
      → has_succeeded (transferred ms).client.trace ≡ true
      → (transferred ms).server.derived.handler.contents ≡ bytes
  unfolding memory_sink
  write_file ms same e =
      upload_client raw net peer stream_source memory_sink bytes is_tftp ms writer receiver
        (writer-IsWriter same) receiver-IsReceiver e
