-- ===== src/Lib.antt =====
-- A TFTP library in C++ (lib/tftp): its packets, the client's read and write operations, the
-- server with its operations, and the files that they transfer. A client sends a request,
-- negotiates options, and then sends or receives numbered blocks of data one at a time, each of
-- which is acknowledged before the next.
--
-- Packets (lib/tftp/packets). Packets.antt has the types and constants of Packets.hpp and the
-- result of decoding; Packets/BlockNumber is BlockNumber.cpp, Packets/Header is Packet.cpp, and
-- Packets/Acknowledgement, DataBlock, ErrorMessage, OptionsAcknowledgement and Request are the
-- packet classes (AcknowledgementPacket, DataPacket, ErrorPacket, OptionsAcknowledgementPacket
-- and ReadWriteRequestPacket), each with `encode` and `decode`. Packets/Options is Options.cpp
-- and Options.ipp over Packets/OptionMap, the std::map of options as a list with rising keys. In
-- Packets/Packet the classes are joined, Packets/Handler is PacketHandler::packet, and
-- Packets/Statistic is PacketStatistic.
--
-- Clients (lib/tftp/clients/implementation). Clients/Operation is OperationImpl: its members are
-- the record `Operation`, each member function is a function on it, and `run` of
-- Clients/Operation/Inputs drives it by a list of inputs, which are packets that arrive, timers
-- that expire, calls to abort, and handlers that were queued before they were cancelled.
-- Clients/ReadOperation and Clients/WriteOperation are the derived classes: the derived members
-- are the field `derived`, and the virtual functions are the record of handlers that Run.antt
-- hands to PacketHandler::packet. Clients/Operation/Keeps and Steps, Clients/ReadOperation/Keeps
-- and Clients/ReadOperation/Invariant carry a property of the derived members, the socket and
-- the events through every function, and likewise for the write operation; Tftp.antt has the
-- data handler interfaces. The files Blocks, Duplicates, Retries and Told are about runs.
--
-- Servers (lib/tftp/servers/implementation). Servers/Server is ServerImpl: it receives requests,
-- splits their options, hands them to the request handler of its user, and makes operations;
-- what it does is a list of events, and an exception that leaves it is the field `escaped`.
-- `serve` of Servers/Server/Run drives it by the packets that arrive. Servers/Operation,
-- Servers/ReadOperation and Servers/WriteOperation are OperationImpl, ReadOperationImpl and
-- WriteOperationImpl, laid out as on the client's side, where Start.antt has `start` with the
-- negotiation of options (Servers/Negotiation).
--
-- Files and transfers. Files/MemoryFile, Files/StreamFile and Files/NullSinkFile are the data
-- handlers of lib/tftp/files, and Files/Contracts makes the first two instances of the contracts
-- of Tftp/Contracts, which say what a transfer relies on of its data handlers.
-- Transfers/Download joins a client that reads a file with the server's operation that sends it,
-- and Transfers/Upload a client that writes a file with the server's operation that receives it.
-- A `Move` of Transfers/Traces is what the network does next: it brings the packet that one side
-- sent last to the other side, once more or for the first time, or lets a timer expire, in any
-- order, so that packets are lost and repeated. In both directories Client and Server say what
-- each side keeps to, by the number of blocks it has received or sent, Linked joins both, Safety
-- starts them, and Files is the composition with the files; Upload/Waiting is the client before
-- its first answer. Block numbers wrap around there as in the sources, and the file may have any
-- length. Packets that were sent before the last one are not delivered there.
--
-- What the sources use and do not contain. The raw data functions of the helper library are the
-- record `RawData` of Helper.antt with the laws that the packets rely on, which the functions
-- over network byte order meet. Of boost::asio there are endpoints (Network.antt), the results
-- that handlers are called with, and faults: each `try` block around socket and timer calls
-- draws one Boolean of the state that says whether it throws. std::stoull and std::to_string are
-- written out in Text/Number, and std::map over std::string in Text/Order and Packets/OptionMap.
--
-- Bytes and characters are numbers below 256; a uint16_t is a number below 65536 with its
-- wrap-around, a size_t of the statistic one below 2 ^ 64. The loop that decodes options runs on
-- fuel, for which the length of the text is enough, since each round takes a character at least.
-- The digits of a number are made with fuel 20, which is enough below 2 ^ 64. Everything else is
-- structural.
--
-- Choices. A data handler is always present, and it throws only in `start`. An operation has at
-- most one reception and one timer registered, and a handler that the operation cancels or
-- replaces is called as aborted and does nothing. A handler that was already queued with success
-- is called by boost::asio all the same: for this there are the inputs `arrived_before` and
-- `expired_before`, at any time, which the theorems that speak of any inputs cover. The moves of
-- the network in Transfers leave them out. `finished` on a closed socket terminates the program,
-- which the field `terminated` records; the steps of a run behind that have no counterpart in
-- the program. A call on a closed socket throws, which the faults must say. What arrives at an
-- operation is what its receive buffer has taken, which has the agreed block size and the header
-- of a data packet; the server cuts what arrives to the size of its buffer itself, as a datagram
-- socket of POSIX does. The global statistics are members of the state. The stream of a
-- StreamFile takes every byte that is written while it is open and its fail bit is not set. The
-- request handler of a server does not throw, and its calls of the server are separate steps.
--
-- Not modelled: the configuration, the factories, the Qt binding and the programs, and the
-- conversions to text for logs.
pub mod Base
pub mod Helper
pub mod Text
pub mod Packets
pub mod Tftp
pub mod Network
pub mod Files
pub mod Clients
pub mod Servers
pub mod Transfers
pub mod Tests
