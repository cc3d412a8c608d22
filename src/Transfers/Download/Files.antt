-- ===== src/Transfers/Download/Files.antt =====
-- A client that reads a file in memory of a server into a file on disk, both made by the library's
-- constructors.
use tftp_senior_design.Base.{ℕ, refl, Bool, true, false, none, List, ◌≡◌}
use tftp_senior_design.Network.{Network}
use tftp_senior_design.Helper.{RawData}
use tftp_senior_design.Packets.TftpOptions.{is_set}
use tftp_senior_design.Files.{receiving_file}
use tftp_senior_design.Files.MemoryFile
use tftp_senior_design.Files.MemoryFile.{MemoryFile, transmitted_file}
use tftp_senior_design.Files.StreamFile
use tftp_senior_design.Files.StreamFile.{StreamFile, on_disk}
use tftp_senior_design.Files.Contracts.{memory_source, stream_sink}
use tftp_senior_design.Clients.Operation
use tftp_senior_design.Clients.ReadOperation
use tftp_senior_design.Servers.Operation as ServerBase
use tftp_senior_design.Servers.ReadOperation as ServerOperation
use tftp_senior_design.Transfers.Download.{Link}
use tftp_senior_design.Transfers.Traces.{Move, has_succeeded}
use tftp_senior_design.Transfers.Download.Safety.{IsReader, IsSender, download, download_server}

module _ (raw : RawData) {E : Type 0} (net : Network E) (peer : E) (is_tftp : Bool)
    (bytes old : List ℕ) where
  -- The operations of both sides, where no call throws.
  abbrev pub reader : ReadOperation.State E StreamFile
  reader = record (ReadOperation.create net (λ k. false) (on_disk receiving_file none old)) {
    has_completion_handler = true;
    remote = peer;
  }

  abbrev pub sender : ServerOperation.State E MemoryFile
  sender = ServerBase.set_completion_handler true (
      ServerBase.set_remote peer (ServerOperation.create net (λ k. false) (transmitted_file bytes)))

  abbrev pub transferred : List Move → Link E StreamFile MemoryFile
  transferred ms =
      download raw net peer StreamFile.receiver MemoryFile.transmitter is_tftp ms reader sender

  pub reader-IsReader :
      net.same_address peer peer ≡ true → IsReader raw net peer stream_sink memory_source reader
  unfolding stream_sink ReadOperation.create Operation.create StreamFile.start
  reader-IsReader same = record {
    untraced = refl;
    plain = refl;
    expected = same;
    accepts = refl;
    starts = refl;
    faultless = λ k. refl;
  }

  pub sender-IsSender : IsSender raw net peer stream_sink memory_source bytes sender
  unfolding memory_source ServerOperation.create ServerBase.create ServerBase.set_remote
      ServerBase.set_completion_handler transmitted_file MemoryFile.start is_set
  sender-IsSender = record {
    untraced = refl;
    no_options = refl;
    no_more = refl;
    transmitted = refl;
    received = refl;
    default_size = refl;
    unfinished = refl;
    starts = refl;
    is_file = refl;
    faultless = λ k. refl;
  }

  -- When the server reports success, the file on disk has the bytes of the file in memory, in spite of
  -- lost and repeated packets and timeouts. The address of the host is one that the client accepts
  -- answers of, and no call throws.
  pub read_file :
      (ms : List Move)
      → net.same_address peer peer ≡ true
      → has_succeeded (transferred ms).server.trace ≡ true
      → (transferred ms).client.derived.handler.contents ≡ bytes
  unfolding stream_sink
  read_file ms same e =
      download_server raw net peer stream_sink memory_source bytes is_tftp ms reader sender
        (reader-IsReader same) sender-IsSender e
