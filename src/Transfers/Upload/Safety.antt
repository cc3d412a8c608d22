-- ===== src/Transfers/Upload/Safety.antt =====
-- A file is written over a network that loses and repeats packets.
use tftp_senior_design.Base.{
  ℕ, suc, refl, inl, inr, Bool, true, false, none, List, [], arith, length, take, take_all, ◌<◌,
  ◌≡◌, ◌∙◌,
}
use tftp_senior_design.Tftp.{TransmitDataHandler, ReceiveDataHandler}
use tftp_senior_design.Tftp.Contracts.{Source, Sink}
use tftp_senior_design.Network.{Network}
use tftp_senior_design.Helper.{RawData}
use tftp_senior_design.Packets.{default_data_size}
use tftp_senior_design.Packets.BlockNumber.{block}
use tftp_senior_design.Packets.OptionMap.{is_empty}
use tftp_senior_design.Packets.TftpOptions.{is_set}
use tftp_senior_design.Clients.Operation.{send_first, receive_first, prepare}
use tftp_senior_design.Clients.Operation.Inputs as ClientInputs
use tftp_senior_design.Clients.WriteOperation
use tftp_senior_design.Clients.WriteOperation.{request, send_request, reset, ask_transfer_size}
use tftp_senior_design.Servers.Operation
use tftp_senior_design.Servers.WriteOperation as ServerOperation
use tftp_senior_design.Servers.WriteOperation.Start.{start, answer_request}
use tftp_senior_design.Transfers.Blocks.{offset}
use tftp_senior_design.Transfers.Traces.{Move, in_flight, has_succeeded}
use tftp_senior_design.Transfers.Upload.{Link, moves}
use tftp_senior_design.Transfers.Upload.Waiting.{IsWaiting, IsPrepared}
use tftp_senior_design.Transfers.Upload.Server.{IsServer}
use tftp_senior_design.Transfers.Upload.Server.Steps.{send-IsServer}
use tftp_senior_design.Transfers.Upload.Linked.{moves-IsLinked, IsLinked, IsSide}

module _ (raw : RawData) {E C S : Type 0} (net : Network E) (peer : E) {hc : TransmitDataHandler C}
    {hs : ReceiveDataHandler S} (source : Source hc) (sink : Sink hs) where
  -- An operation that is about to write `file` to the host `peer`.
  pub record IsWriter (file : List ℕ) (c : WriteOperation.State E C) : Type 0 where
    pub untraced : c.trace ≡ []
    pub plain : c.derived.option_negotiation_handler ≡ none
    pub no_transfer_size : c.derived.options_configuration.handle_transfer_size_option ≡ false
    pub expected : net.same_address c.remote peer ≡ true
    pub starts : (hc.start c.derived.handler).1 ≡ false
    pub is_file : source.file c.derived.handler ≡ file
    pub faultless : (k : ℕ) → c.faults k ≡ false

  -- An operation that is about to receive a file, where there is nothing to be negotiated.
  pub record IsReceiver (s : ServerOperation.State E S) : Type 0 where
    pub untraced : s.trace ≡ []
    pub no_options : is_set s.derived.client_options ≡ false
    pub no_more : is_empty s.derived.additional_negotiated_options ≡ true
    pub received : s.derived.last_received_block_number ≡ 0
    pub default_size : s.derived.receive_data_size ≡ default_data_size
    pub accepts : sink.accepts s.derived.handler ≡ true
    pub starts : (hs.start s.derived.handler).1 ≡ false
    pub faultless : (k : ℕ) → s.faults k ≡ false

  -- The request is sent when the data handler has started and the members are reset.
  send_request-IsWaiting :
      (file : List ℕ) (c : WriteOperation.State E C)
      → c.trace ≡ []
      → net.same_address c.remote peer ≡ true
      → ((k : ℕ) → c.faults k ≡ false)
      → IsPrepared source default_data_size file c.derived
      → IsWaiting raw net peer hc source default_data_size file (send_request raw net hc c)
  unfolding send_request send_first receive_first prepare in_flight has_succeeded
  send_request-IsWaiting file c untraced expected faultless prepared =
      rw (faultless 0, send_request)
        (rw (faultless 1, receive_first)
          (record {
            holds = record {
              flight = rw untraced refl;
              silent = λ e. cc;
              faultless = λ k. faultless (suc (suc k));
              expected = expected;
            };
            timed = tt;
            goes_on = inl prepared;
          }))

  unasked :
      (c : WriteOperation.State E C)
      → c.derived.options_configuration.handle_transfer_size_option ≡ false
      → ask_transfer_size raw net hc c ≡ c
  unfolding ask_transfer_size
  unasked c e = simp e refl

  unasked_request :
      (file : List ℕ) (c : WriteOperation.State E C)
      → c.derived.options_configuration.handle_transfer_size_option ≡ false
      → IsWaiting raw net peer hc source default_data_size file (send_request raw net hc c)
      → IsWaiting raw net peer hc source default_data_size file
          (send_request raw net hc (ask_transfer_size raw net hc c))
  unasked_request file c e w = rw (unasked c e) w

  request-IsWaiting :
      (file : List ℕ) (c : WriteOperation.State E C)
      → IsWriter file c
      → IsWaiting raw net peer hc source default_data_size file (request raw net hc c)
  unfolding request ClientInputs.initialise reset
  request-IsWaiting file c w =
      rw (w.faultless 0, request)
        (rw (w.starts) (
          unasked_request file _ w.no_transfer_size (
            send_request-IsWaiting file _ w.untraced w.expected (λ k. w.faultless (suc k))
              (record {
                numbered = refl {a = 0};
                received = refl {a = 0xffff};
                sized = refl {a = 512};
                plain = w.plain;
                rest = source.start_lem c.derived.handler w.starts ∙ w.is_file;
                unfinished = refl {a = false};
              }))))

  start-IsServer :
      (file : List ℕ) (is_tftp : Bool) (s : ServerOperation.State E S)
      → IsReceiver s
      → IsServer raw hs sink default_data_size file 0 (start raw hs is_tftp s)
  unfolding start answer_request Operation.initialise has_succeeded block
  start-IsServer file is_tftp s w =
      let started = sink.start_lem s.derived.handler w.accepts w.starts in
      rw (w.faultless 0, start)
        (rw (w.starts) (
          rw (w.no_options, w.no_more)
            (send-IsServer raw hs sink default_data_size file _
              (record { kept = started.0; told = λ e. cc; faultless = λ k. w.faultless (suc k) })
              (record { numbered = w.received; sized = w.default_size; live = started.1 }))))

  start-IsLinked :
      (file : List ℕ) (is_tftp : Bool) (c : WriteOperation.State E C)
      (s : ServerOperation.State E S)
      → IsWriter file c
      → IsReceiver s
      → IsLinked raw net peer source sink default_data_size file
          (record { client = request raw net hc c; server = start raw hs is_tftp s })
  start-IsLinked file is_tftp c s writer receiver = record {
    j = 0;
    server = start-IsServer file is_tftp s receiver;
    client = inl (refl, request-IsWaiting file c writer);
  }

  complete :
      (n : ℕ) (file : List ℕ) (l : Link E C S) (w : IsLinked raw net peer source sink n file l)
      → length file < offset n w.j
      → sink.got l.server.derived.handler ≡ file
  complete n file l w e = w.server.holds.kept ∙ take_all (offset n w.j) file (omega arith)

  told :
      (n : ℕ) (file : List ℕ) (j : ℕ) (c : WriteOperation.State E C)
      → IsSide raw net peer source sink n file j c
      → has_succeeded c.trace ≡ true
      → length file < offset n j
  told n file j c (inl (first, w)) e = elim (w.holds.silent e) [ ]
  told n file j c (inr (i, near, w)) e = w.holds.told e

-- The client's request and the start of the server's operation, and then what happens.
abbrev pub upload :
    {E C S : Type 0} (raw : RawData) (net : Network E) (peer : E) (hc : TransmitDataHandler C)
    (hs : ReceiveDataHandler S) (is_tftp : Bool)
    → List Move
    → WriteOperation.State E C
    → ServerOperation.State E S
    → Link E C S
upload raw net peer hc hs is_tftp ms c s =
    moves raw net peer hc hs ms
      (record { client = request raw net hc c; server = start raw hs is_tftp s })

module _ (raw : RawData) {E C S : Type 0} (net : Network E) (peer : E) {hc : TransmitDataHandler C}
    {hs : ReceiveDataHandler S} (source : Source hc) (sink : Sink hs) (file : List ℕ)
    (is_tftp : Bool) (ms : List Move) (c : WriteOperation.State E C)
    (s : ServerOperation.State E S) where
  linked :
      IsWriter raw net peer source sink file c
      → IsReceiver raw net peer source sink s
      → IsLinked raw net peer source sink default_data_size file
          (upload raw net peer hc hs is_tftp ms c s)
  linked writer receiver =
      moves-IsLinked raw net peer source sink default_data_size file ms _
        (start-IsLinked raw net peer source sink file is_tftp c s writer receiver)

  -- Whatever packets are lost, repeated and sent again by timeouts, what the server has handed to its
  -- data handler is a number of whole blocks of the file, or all of it. The client writes the file,
  -- nothing is negotiated, no call throws, and both data handlers keep their contracts.
  pub upload_prefix :
      IsWriter raw net peer source sink file c
      → IsReceiver raw net peer source sink s
      → (k : ℕ) × (sink.got (upload raw net peer hc hs is_tftp ms c s).server.derived.handler
          ≡ take (offset default_data_size k) file)
  upload_prefix writer receiver = let w = linked writer receiver in (w.j, w.server.holds.kept)

  -- When the client's operation reports success, the data handler of the server has the file, in
  -- spite of lost and repeated packets and timeouts. The client writes the file, nothing is
  -- negotiated, no call throws, and both data handlers keep their contracts.
  pub upload_client :
      IsWriter raw net peer source sink file c
      → IsReceiver raw net peer source sink s
      → has_succeeded (upload raw net peer hc hs is_tftp ms c s).client.trace ≡ true
      → sink.got (upload raw net peer hc hs is_tftp ms c s).server.derived.handler ≡ file
  upload_client writer receiver e =
      let w = linked writer receiver in
      complete raw net peer source sink default_data_size file _ w
        (told raw net peer source sink default_data_size file w.j _ w.client e)

  -- When the server's operation reports success, its data handler has the file, in spite of lost and
  -- repeated packets and timeouts. The client writes the file, nothing is negotiated, no call
  -- throws, and both data handlers keep their contracts.
  pub upload_server :
      IsWriter raw net peer source sink file c
      → IsReceiver raw net peer source sink s
      → has_succeeded (upload raw net peer hc hs is_tftp ms c s).server.trace ≡ true
      → sink.got (upload raw net peer hc hs is_tftp ms c s).server.derived.handler ≡ file
  upload_server writer receiver e =
      let w = linked writer receiver in
      complete raw net peer source sink default_data_size file _ w (w.server.holds.told e)
