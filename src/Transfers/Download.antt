-- ===== src/Transfers/Download.antt =====
-- A client that reads a file of a server: Clients/ReadOperation and Servers/ReadOperation, joined by a
-- network that may lose packets and repeat the last one of each side.
pub mod Client
pub mod Server
pub mod Linked
pub mod Safety
pub mod Files
use tftp_senior_design.Base.{none, some, List, [], ◌∷◌}
use tftp_senior_design.Tftp.{TransmitDataHandler, ReceiveDataHandler, TransferStatus, successful}
use tftp_senior_design.Network.{Network, success, Event, sent, sent_to, connected, completed}
use tftp_senior_design.Helper.{RawData}
use tftp_senior_design.Transfers.Traces.{
  Move, to_client, to_server, client_timeout, server_timeout, in_flight,
}
use tftp_senior_design.Clients.Operation.{arrives, expires}
use tftp_senior_design.Clients.ReadOperation
use tftp_senior_design.Clients.ReadOperation.Run as ClientRun
use tftp_senior_design.Servers.Operation.Inputs
use tftp_senior_design.Servers.ReadOperation as ServerOperation
use tftp_senior_design.Servers.ReadOperation.Run as ServerRun

pub record Link (E C S : Type 0) : Type 0 where
  pub client : ReadOperation.State E C
  pub server : ServerOperation.State E S

module _ (raw : RawData) {E C S : Type 0} (net : Network E) (peer : E) (hc : ReceiveDataHandler C)
    (hs : TransmitDataHandler S) where
  unfoldable pub move : Move → Link E C S → Link E C S
  move to_client l = elim (in_flight l.server.trace) [
    | none ↦ l
    | some bytes ↦ record l {
      client = ClientRun.step raw net hc (arrives success peer bytes) l.client;
    }
  ]
  move to_server l = elim (in_flight l.client.trace) [
    | none ↦ l
    | some bytes ↦ record l {
      server = ServerRun.step raw hs (Inputs.arrives success bytes) l.server;
    }
  ]
  move client_timeout l = record l { client = ClientRun.step raw net hc (expires success) l.client }
  move server_timeout l = record l {
    server = ServerRun.step raw hs (Inputs.expires success) l.server;
  }

  unfoldable pub moves : List Move → Link E C S → Link E C S
  moves [] l = l
  moves (m ∷ ms) l = moves ms (move m l)
