-- ===== src/Transfers/Download/Safety.antt =====
-- A file is read over a network that loses and repeats packets.
use tftp_senior_design.Base.{
  ℕ, suc, refl, inl, Bool, true, false, none, List, [], arith, length, take, take_all, ◌<◌, ◌≡◌,
  ◌∙◌,
}
use tftp_senior_design.Tftp.{TransmitDataHandler, ReceiveDataHandler}
use tftp_senior_design.Tftp.Contracts.{Source, Sink}
use tftp_senior_design.Network.{Network}
use tftp_senior_design.Helper.{RawData}
use tftp_senior_design.Packets.{default_data_size}
use tftp_senior_design.Packets.BlockNumber.{block}
use tftp_senior_design.Packets.OptionMap.{is_empty}
use tftp_senior_design.Packets.TftpOptions.{is_set}
use tftp_senior_design.Clients.Operation.{send_first, receive_first, prepare}
use tftp_senior_design.Clients.Operation.Inputs as ClientInputs
use tftp_senior_design.Clients.ReadOperation
use tftp_senior_design.Clients.ReadOperation.{request, send_request}
use tftp_senior_design.Servers.Operation
use tftp_senior_design.Servers.ReadOperation as ServerOperation
use tftp_senior_design.Servers.ReadOperation.Start.{start, answer_request}
use tftp_senior_design.Transfers.Blocks.{offset}
use tftp_senior_design.Transfers.Download.{Link, moves}
use tftp_senior_design.Transfers.Traces.{Move, in_flight, has_succeeded}
use tftp_senior_design.Transfers.Download.Client.{IsClient}
use tftp_senior_design.Transfers.Download.Server.{IsServer, send_data-IsServer}
use tftp_senior_design.Transfers.Download.Linked.{moves-IsLinked, IsLinked}

module _ (raw : RawData) {E C S : Type 0} (net : Network E) (peer : E) {hc : ReceiveDataHandler C}
    {hs : TransmitDataHandler S} (sink : Sink hc) (source : Source hs) where
  -- An operation that is about to read a file of the host `peer`.
  pub record IsReader (c : ReadOperation.State E C) : Type 0 where
    pub untraced : c.trace ≡ []
    pub plain : c.derived.option_negotiation_handler ≡ none
    pub expected : net.same_address c.remote peer ≡ true
    pub accepts : sink.accepts c.derived.handler ≡ true
    pub starts : (hc.start c.derived.handler).1 ≡ false
    pub faultless : (k : ℕ) → c.faults k ≡ false

  -- An operation that is about to send `file`, where there is nothing to be negotiated.
  pub record IsSender (file : List ℕ) (s : ServerOperation.State E S) : Type 0 where
    pub untraced : s.trace ≡ []
    pub no_options : is_set s.derived.client_options ≡ false
    pub no_more : is_empty s.derived.additional_negotiated_options ≡ true
    pub transmitted : s.derived.last_transmitted_block_number ≡ 0
    pub received : s.derived.last_received_block_number ≡ 0
    pub default_size : s.derived.transmit_data_size ≡ default_data_size
    pub unfinished : s.derived.last_data_packet_transmitted ≡ false
    pub starts : (hs.start s.derived.handler).1 ≡ false
    pub is_file : source.file s.derived.handler ≡ file
    pub faultless : (k : ℕ) → s.faults k ≡ false

  -- The request is sent when the data handler has started.
  send_request-IsClient :
      (file : List ℕ) (c : ReadOperation.State E C)
      → c.trace ≡ []
      → c.derived.option_negotiation_handler ≡ none
      → net.same_address c.remote peer ≡ true
      → sink.got c.derived.handler ≡ []
      → sink.is_live c.derived.handler ≡ true
      → ((k : ℕ) → c.faults k ≡ false)
      → IsClient raw net peer hc sink default_data_size file 0 (send_request raw net hc c)
  unfolding send_request send_first receive_first prepare in_flight has_succeeded block
  send_request-IsClient file c untraced plain expected nothing live faultless =
      rw (faultless 0, send_request)
        (rw (faultless 1, receive_first)
          (record {
            holds = record {
              kept = nothing;
              told = λ e. cc;
              faultless = λ k. faultless (suc (suc k));
            };
            flight = inl (rw untraced refl);
            timed = tt;
            goes_on = inl (record {
              numbered = refl {a = 0};
              sized = refl {a = 512};
              plain = plain;
              live = live;
              expected = expected;
            });
          }))

  request-IsClient :
      (file : List ℕ) (c : ReadOperation.State E C)
      → IsReader c
      → IsClient raw net peer hc sink default_data_size file 0 (request raw net hc c)
  unfolding request ClientInputs.initialise
  request-IsClient file c w =
      let started = sink.start_lem c.derived.handler w.accepts w.starts in
      rw (w.faultless 0, request)
        (rw w.starts (
          send_request-IsClient file _ w.untraced w.plain w.expected started.0 started.1
            (λ k. w.faultless (suc k))))

  start-IsServer :
      (file : List ℕ) (is_tftp : Bool) (s : ServerOperation.State E S)
      → IsSender file s
      → IsServer raw hs source default_data_size file 0 0 (start raw hs is_tftp s)
  unfolding start answer_request Operation.initialise has_succeeded block
  start-IsServer file is_tftp s w =
      rw (w.faultless 0, start)
        (rw (w.starts) (
          rw (w.no_options, w.no_more)
            (send_data-IsServer raw hs source default_data_size file 0 0 _
              (record {
                numbered = w.transmitted;
                acknowledged = w.received;
                sized = w.default_size;
                rest = source.start_lem s.derived.handler w.starts ∙ w.is_file;
                unfinished = w.unfinished;
              })
              (λ e. cc) (λ k. w.faultless (suc k)))))

  start-IsLinked :
      (file : List ℕ) (is_tftp : Bool) (c : ReadOperation.State E C) (s : ServerOperation.State E S)
      → IsReader c
      → IsSender file s
      → IsLinked raw net peer sink source default_data_size file
          (record { client = request raw net hc c; server = start raw hs is_tftp s })
  start-IsLinked file is_tftp c s reader sender = record {
    i = 0;
    j = 0;
    near = inl refl;
    server = start-IsServer file is_tftp s sender;
    client = request-IsClient file c reader;
  }

  complete :
      (n : ℕ) (file : List ℕ) (l : Link E C S) (w : IsLinked raw net peer sink source n file l)
      → length file < offset n w.j
      → sink.got l.client.derived.handler ≡ file
  complete n file l w e = w.client.holds.kept ∙ take_all (offset n w.j) file (omega arith)

-- The client's request and the start of the server's operation, and then what happens.
abbrev pub download :
    {E C S : Type 0} (raw : RawData) (net : Network E) (peer : E) (hc : ReceiveDataHandler C)
    (hs : TransmitDataHandler S) (is_tftp : Bool)
    → List Move
    → ReadOperation.State E C
    → ServerOperation.State E S
    → Link E C S
download raw net peer hc hs is_tftp ms c s =
    moves raw net peer hc hs ms
      (record { client = request raw net hc c; server = start raw hs is_tftp s })

module _ (raw : RawData) {E C S : Type 0} (net : Network E) (peer : E) {hc : ReceiveDataHandler C}
    {hs : TransmitDataHandler S} (sink : Sink hc) (source : Source hs) (file : List ℕ)
    (is_tftp : Bool) (ms : List Move) (c : ReadOperation.State E C)
    (s : ServerOperation.State E S) where
  -- Whatever packets are lost, repeated and sent again by timeouts, what the client has handed to its
  -- data handler is a number of whole blocks of the file, or all of it. The server sends the file,
  -- nothing is negotiated, no call throws, and both data handlers keep their contracts.
  pub download_prefix :
      IsReader raw net peer sink source c
      → IsSender raw net peer sink source file s
      → (k : ℕ) × (sink.got (download raw net peer hc hs is_tftp ms c s).client.derived.handler
          ≡ take (offset default_data_size k) file)
  download_prefix reader sender =
      let w =
        moves-IsLinked raw net peer sink source default_data_size file ms _
          (start-IsLinked raw net peer sink source file is_tftp c s reader sender) in
      (w.j, w.client.holds.kept)

  -- When the client's operation reports success, its data handler has the file, in spite of lost
  -- and repeated packets and timeouts. The server sends the file, nothing is negotiated, no call
  -- throws, and both data handlers keep their contracts.
  pub download_client :
      IsReader raw net peer sink source c
      → IsSender raw net peer sink source file s
      → has_succeeded (download raw net peer hc hs is_tftp ms c s).client.trace ≡ true
      → sink.got (download raw net peer hc hs is_tftp ms c s).client.derived.handler ≡ file
  download_client reader sender e =
      let w =
        moves-IsLinked raw net peer sink source default_data_size file ms _
          (start-IsLinked raw net peer sink source file is_tftp c s reader sender) in
      complete raw net peer sink source default_data_size file _ w (w.client.holds.told e)

  -- When the server's operation reports success, the client's data handler has the file, in spite of
  -- lost and repeated packets and timeouts. The server sends the file, nothing is negotiated, no
  -- call throws, and both data handlers keep their contracts.
  pub download_server :
      IsReader raw net peer sink source c
      → IsSender raw net peer sink source file s
      → has_succeeded (download raw net peer hc hs is_tftp ms c s).server.trace ≡ true
      → sink.got (download raw net peer hc hs is_tftp ms c s).client.derived.handler ≡ file
  download_server reader sender e =
      let w =
        moves-IsLinked raw net peer sink source default_data_size file ms _
          (start-IsLinked raw net peer sink source file is_tftp c s reader sender) in
      complete raw net peer sink source default_data_size file _ w (w.server.holds.told e)
