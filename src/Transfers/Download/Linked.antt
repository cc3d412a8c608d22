-- ===== src/Transfers/Download/Linked.antt =====
-- A file is read over a network that loses and repeats packets: what a client and a server that have
-- begun keep to.
use tftp_senior_design.Base.{
  ℕ, suc, refl, subst, inl, inr, List, [], arith, length, subst, ◌<◌, ◌≡◌, ◌⊎◌, ◌∷◌,
}
use tftp_senior_design.Tftp.{TransmitDataHandler, ReceiveDataHandler}
use tftp_senior_design.Tftp.Contracts.{Source, Sink}
use tftp_senior_design.Network.{Network}
use tftp_senior_design.Helper.{RawData}
use tftp_senior_design.Transfers.Blocks.{offset}
use tftp_senior_design.Transfers.Download.{Link, move, moves}
use tftp_senior_design.Transfers.Traces.{Move, to_client, to_server, client_timeout, server_timeout}
use tftp_senior_design.Transfers.Download.Client.{IsClient}
use tftp_senior_design.Transfers.Download.Client.Steps.{to_client-IsClient, timeout-IsClient}
use tftp_senior_design.Transfers.Download.Server.{IsServer, IsServer-later}
use tftp_senior_design.Transfers.Download.Server.Steps.{to_server-IsServer, timeout-IsServer}

module _ (raw : RawData) {E C S : Type 0} (net : Network E) (peer : E) {hc : ReceiveDataHandler C}
    {hs : TransmitDataHandler S} (sink : Sink hc) (source : Source hs) where
  -- `i` blocks are acknowledged and `j` are received, of blocks of `n` bytes.
  pub record IsLinked (n : ℕ) (file : List ℕ) (l : Link E C S) : Type 0 where
    pub i : ℕ
    pub j : ℕ
    pub near : (j ≡ i) ⊎ (j ≡ suc i)
    pub server : IsServer raw hs source n file i j l.server
    pub client : IsClient raw net peer hc sink n file j l.client

  to_client-IsLinked :
      (n : ℕ) (file : List ℕ) (l : Link E C S)
      → IsLinked n file l
      → IsLinked n file (move raw net peer hc hs to_client l)
  unfolding move
  to_client-IsLinked n file l w =
      let more : length file < offset n w.j → length file < offset n (suc w.i) = λ e. elim w.near [
        | inl same ↦ omega (arith, subst (λ k. length file < offset n k) same e)
        | inr same ↦ subst (λ k. length file < offset n k) same e
      ] in
      rw (w.server.holds.flight, move)
        (elim (to_client-IsClient raw net peer hc sink n file w.i w.j l.client w.near w.client) [
          | inl got ↦ record {
            i = w.i;
            j = suc w.i;
            near = inr refl;
            server = IsServer-later raw hs source n file w.i w.j (suc w.i) l.server more w.server;
            client = got;
          }
          | inr same ↦ record { i = w.i; j = w.j; near = w.near; server = w.server; client = same }
        ])

  to_server-IsLinked :
      (n : ℕ) (file : List ℕ) (l : Link E C S)
      → IsLinked n file l
      → IsLinked n file (move raw net peer hc hs to_server l)
  unfolding move
  to_server-IsLinked n file l w = elim w.client.flight [
    | inl e ↦ rw (e, move) w
    | inr e ↦
        let (k, near, done) =
          to_server-IsServer raw hs source n file w.i w.j l.server w.near w.server in
        rw (e, move) (record { i = k; j = w.j; near = near; server = done; client = w.client })
  ]

  move-IsLinked :
      (n : ℕ) (file : List ℕ) (m : Move) (l : Link E C S)
      → IsLinked n file l
      → IsLinked n file (move raw net peer hc hs m l)
  unfolding move
  move-IsLinked n file to_client l w = to_client-IsLinked n file l w
  move-IsLinked n file to_server l w = to_server-IsLinked n file l w
  move-IsLinked n file client_timeout l w = record {
    i = w.i;
    j = w.j;
    near = w.near;
    server = w.server;
    client = timeout-IsClient raw net peer hc sink n file w.j l.client w.client;
  }
  move-IsLinked n file server_timeout l w = record {
    i = w.i;
    j = w.j;
    near = w.near;
    server = timeout-IsServer raw hs source n file w.i w.j l.server w.server;
    client = w.client;
  }

  pub moves-IsLinked :
      (n : ℕ) (file : List ℕ) (ms : List Move) (l : Link E C S)
      → IsLinked n file l
      → IsLinked n file (moves raw net peer hc hs ms l)
  unfolding moves
  moves-IsLinked n file [] l w = w
  moves-IsLinked n file (m ∷ ms) l w = moves-IsLinked n file ms _ (move-IsLinked n file m l w)
