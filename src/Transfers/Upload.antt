-- ===== src/Transfers/Upload.antt =====
-- A client that writes a file to a server: Clients/WriteOperation and Servers/WriteOperation, joined by
-- a network that may lose packets and repeat the last one of each side.
pub mod Client
pub mod Waiting
pub mod Server
pub mod Linked
pub mod Safety
pub mod Files
use tftp_senior_design.Base.{none, some, List, [], ◌∷◌}
use tftp_senior_design.Tftp.{TransmitDataHandler, ReceiveDataHandler}
use tftp_senior_design.Network.{Network, success}
use tftp_senior_design.Helper.{RawData}
use tftp_senior_design.Transfers.Traces.{
  Move, to_client, to_server, client_timeout, server_timeout, in_flight,
}
use tftp_senior_design.Clients.Operation.{arrives, expires}
use tftp_senior_design.Clients.WriteOperation
use tftp_senior_design.Clients.WriteOperation.Run as ClientRun
use tftp_senior_design.Servers.Operation.Inputs
use tftp_senior_design.Servers.WriteOperation as ServerOperation
use tftp_senior_design.Servers.WriteOperation.Run as ServerRun

pub record Link (E C S : Type 0) : Type 0 where
  pub client : WriteOperation.State E C
  pub server : ServerOperation.State E S

module _ (raw : RawData) {E C S : Type 0} (net : Network E) (peer : E) (hc : TransmitDataHandler C)
    (hs : ReceiveDataHandler S) where
  unfoldable pub move : Move → Link E C S → Link E C S
  move to_client l = elim (in_flight l.server.trace) [
    | none ↦ l
    | some bytes ↦ record l {
      client = ClientRun.step raw net hc (arrives success peer bytes) l.client;
    }
  ]
  move to_server l = elim (in_flight l.client.trace) [
    | none ↦ l
    | some bytes ↦ record l {
      server = ServerRun.step raw hs (Inputs.arrives success bytes) l.server;
    }
  ]
  move client_timeout l = record l { client = ClientRun.step raw net hc (expires success) l.client }
  move server_timeout l = record l {
    server = ServerRun.step raw hs (Inputs.expires success) l.server;
  }

  unfoldable pub moves : List Move → Link E C S → Link E C S
  moves [] l = l
  moves (m ∷ ms) l = moves ms (move m l)
