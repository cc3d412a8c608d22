-- ===== src/Transfers/Upload/Linked.antt =====
-- A file is written over a network that loses and repeats packets: what a client and a server that
-- have begun keep to.
use tftp_senior_design.Base.{
  ℕ, suc, refl, subst, inl, inr, List, [], arith, length, subst, ◌<◌, ◌≡◌, ◌⊎◌, ◌∷◌,
}
use tftp_senior_design.Tftp.{TransmitDataHandler, ReceiveDataHandler}
use tftp_senior_design.Tftp.Contracts.{Source, Sink}
use tftp_senior_design.Network.{Network, success}
use tftp_senior_design.Helper.{RawData}
use tftp_senior_design.Packets.BlockNumber.{block}
use tftp_senior_design.Packets.Packet.{encode}
use tftp_senior_design.Clients.Operation.{arrives}
use tftp_senior_design.Clients.WriteOperation
use tftp_senior_design.Clients.WriteOperation.{request, send_request, reset, ask_transfer_size}
use tftp_senior_design.Clients.WriteOperation.Run as ClientRun
use tftp_senior_design.Servers.WriteOperation.Transfer.{ack}
use tftp_senior_design.Transfers.Blocks.{offset}
use tftp_senior_design.Transfers.Traces.{Move, to_client, to_server, client_timeout, server_timeout}
use tftp_senior_design.Transfers.Upload.{Link, move, moves}
use tftp_senior_design.Transfers.Upload.Client.{IsClient, IsClient-later}
use tftp_senior_design.Transfers.Upload.Client.Steps.{to_client-IsClient, timeout-IsClient}
use tftp_senior_design.Transfers.Upload.Waiting.{IsWaiting, to_client-IsWaiting, timeout-IsWaiting}
use tftp_senior_design.Transfers.Upload.Server.{IsServer}
use tftp_senior_design.Transfers.Upload.Server.Steps.{to_server-IsServer, timeout-IsServer}

module _ (raw : RawData) {E C S : Type 0} (net : Network E) (peer : E) {hc : TransmitDataHandler C}
    {hs : ReceiveDataHandler S} (source : Source hc) (sink : Sink hs) where
  -- The client waits for its first answer, or `i` blocks are acknowledged of the `j` that the server
  -- has received.
  abbrev pub IsSide : ℕ → List ℕ → ℕ → WriteOperation.State E C → Type 0
  IsSide n file j c =
      ((j ≡ 0) × IsWaiting raw net peer hc source n file c)
      ⊎ ((i : ℕ) × ((j ≡ i) ⊎ (j ≡ suc i)) × IsClient raw net peer hc source n file i j c)

  -- The server has received `j` blocks of `n` bytes.
  pub record IsLinked (n : ℕ) (file : List ℕ) (l : Link E C S) : Type 0 where
    pub j : ℕ
    pub server : IsServer raw hs sink n file j l.server
    pub client : IsSide n file j l.client

  to_client-IsSide :
      (n : ℕ) (file : List ℕ) (j : ℕ) (c : WriteOperation.State E C)
      → IsSide n file j c
      → IsSide n file j
          (ClientRun.step raw net hc (arrives success peer (encode raw (ack (block j)))) c)
  to_client-IsSide n file j c (inl (e, w)) =
      rw e (elim (to_client-IsWaiting raw net peer hc source n file c w) [
        | inl waits ↦ inl (refl, waits)
        | inr begun ↦ inr (0, inl refl, begun)
      ])
  to_client-IsSide n file j c (inr (i, near, w)) =
      inr (to_client-IsClient raw net peer hc source n file i j c near w)

  to_client-IsLinked :
      (n : ℕ) (file : List ℕ) (l : Link E C S)
      → IsLinked n file l
      → IsLinked n file (move raw net peer hc hs to_client l)
  unfolding move
  to_client-IsLinked n file l w =
      rw (w.server.answered.flight, move)
        (record {
          j = w.j;
          server = w.server;
          client = to_client-IsSide n file w.j l.client w.client;
        })

  further :
      (n : ℕ) (file : List ℕ) (i j : ℕ)
      → (j ≡ i) ⊎ (j ≡ suc i)
      → length file < offset n j
      → length file < offset n (suc i)
  further n file i j (inl same) e = omega (arith, subst (λ k. length file < offset n k) same e)
  further n file i j (inr same) e = subst (λ k. length file < offset n k) same e

  to_server-IsLinked :
      (n : ℕ) (file : List ℕ) (l : Link E C S)
      → IsLinked n file l
      → IsLinked n file (move raw net peer hc hs to_server l)
  unfolding move
  to_server-IsLinked n file l w = elim w.client [
    | inl (e, waits) ↦ rw (waits.holds.flight, move) w
    | inr (i, near, v) ↦
        rw (v.holds.flight, move)
          (elim (to_server-IsServer raw hs sink n file i w.j l.server near w.server) [
            | inl got ↦ record {
              j = suc i;
              server = got;
              client = inr (
                i,
                inr refl,
                IsClient-later raw net peer hc source n file i w.j (suc i) l.client
                    (further n file i w.j near) v,
              );
            }
            | inr same ↦ record { j = w.j; server = same; client = w.client }
          ])
  ]

  move-IsLinked :
      (n : ℕ) (file : List ℕ) (m : Move) (l : Link E C S)
      → IsLinked n file l
      → IsLinked n file (move raw net peer hc hs m l)
  unfolding move
  move-IsLinked n file to_client l w = to_client-IsLinked n file l w
  move-IsLinked n file to_server l w = to_server-IsLinked n file l w
  move-IsLinked n file client_timeout l w = record {
    j = w.j;
    server = w.server;
    client = elim w.client [
      | inl (e, v) ↦ inl (e, timeout-IsWaiting raw net peer hc source n file l.client v)
      | inr (i, near, v) ↦
          inr (i, near, timeout-IsClient raw net peer hc source n file i w.j l.client v)
    ];
  }
  move-IsLinked n file server_timeout l w = record {
    j = w.j;
    server = timeout-IsServer raw hs sink n file w.j l.server w.server;
    client = w.client;
  }

  pub moves-IsLinked :
      (n : ℕ) (file : List ℕ) (ms : List Move) (l : Link E C S)
      → IsLinked n file l
      → IsLinked n file (moves raw net peer hc hs ms l)
  unfolding moves
  moves-IsLinked n file [] l w = w
  moves-IsLinked n file (m ∷ ms) l w = moves-IsLinked n file ms _ (move-IsLinked n file m l w)
