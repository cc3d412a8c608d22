-- ===== src/Clients/Operation/Retries.antt =====
-- lib/tftp/clients/implementation/OperationImpl.cpp, timeoutFirstHandler and timeoutHandler: how often
-- a packet is sent, and what follows.
use tftp_senior_design.Base.{
  ℕ, zero, suc, refl, ap, Bool, true, false, none, some, List, arith, lt→ltb, le→ltb, replicate,
  replicate-append, ◌+◌, ◌≤◌, ◌≡◌, ◌∷◌, ◌++◌,
}
use tftp_senior_design.Tftp.{communication_error}
use tftp_senior_design.Network.{Network, success, Event, sent, sent_to, completed}
use tftp_senior_design.Helper.{RawData}
use tftp_senior_design.Clients.Operation.{
  Operation, finished, expires, Timer, first_timer, transfer_timer,
}
use tftp_senior_design.Clients.Operation.Inputs.{
  retransmit, timeout_first_handler, timeout_handler, expire, step, run,
}

-- What sends a packet again: the request goes to the server's address, and every later packet over
-- the connected socket.
abbrev pub again : {E : Type 0} → Bool → E → List ℕ → Event E
again true remote packet = sent_to remote packet
again false remote packet = sent packet

-- The timer that runs meanwhile.
abbrev pub answer_timer : Bool → Timer
answer_timer true = first_timer
answer_timer false = transfer_timer

-- A packet, the request if `first`, was sent `counter` times, at most `retries` of them may be
-- followed by another, and an answer is awaited; no call throws.
pub record IsWaiting {E D : Type 0} (first : Bool) (remote : E) (packet : List ℕ)
    (retries counter : ℕ) (trace : List (Event E)) (s : Operation E D) : Type 0 where
  pub seconds : ℕ
  pub armed : s.timing ≡ some (answer_timer first, seconds)
  pub addressed : s.remote ≡ remote
  pub sent_packet : s.transmit_packet ≡ packet
  pub allowed : s.tftp_retries ≡ retries
  pub counted : s.transmit_counter ≡ counter
  pub traced : s.trace ≡ trace
  pub opened : s.is_open ≡ true
  pub observed : s.has_completion_handler ≡ true
  pub faultless : (n : ℕ) → s.faults n ≡ false

-- Nothing is awaited any more, the socket is closed, and the completion handler was told.
pub record IsGivenUp {E D : Type 0} (trace : List (Event E)) (s : Operation E D) : Type 0 where
  pub no_reception : s.receiving ≡ none
  pub no_timer : s.timing ≡ none
  pub closed : s.is_open ≡ false
  pub told : s.trace ≡ completed communication_error ∷ trace

module _ (raw : RawData) {E D : Type 0} (net : Network E) (f : D → D)
    (handle : E → List ℕ → Operation E D → Operation E D) where
  -- Both timer handlers come to `retransmit`.
  step-timeout :
      (first : Bool) (seconds : ℕ) (s : Operation E D)
      → s.timing ≡ some (answer_timer first, seconds)
      → step raw net f handle (expires success) s
        ≡ retransmit raw f
            (again first s.remote s.transmit_packet)
            (answer_timer first)
            (record s { timing = none })
  unfolding step expire timeout_first_handler timeout_handler
  step-timeout true seconds s armed = rw (armed, step) refl
  step-timeout false seconds s armed = rw (armed, step) refl

  repeat :
      (first : Bool) (remote : E) (packet : List ℕ) (retries counter : ℕ) (trace : List (Event E))
      (s : Operation E D)
      → counter ≤ retries
      → IsWaiting first remote packet retries counter trace s
      → IsWaiting first remote packet retries
          (suc counter)
          (again first remote packet ∷ trace)
          (step raw net f handle (expires success) s)
  unfolding retransmit
  repeat first remote packet retries counter trace s le w =
      rw
        (
          step-timeout first w.seconds s w.armed,
          le→ltb s.tftp_retries s.transmit_counter (omega (arith, w.counted, w.allowed)),
          w.faultless 0,
          retransmit,
        )
        (record {
          seconds = s.receive_timeout;
          armed = refl;
          addressed = w.addressed;
          sent_packet = w.sent_packet;
          allowed = w.allowed;
          counted = omega (arith, w.counted);
          traced = rw (w.addressed, w.sent_packet, w.traced) refl;
          opened = w.opened;
          observed = w.observed;
          faultless = λ n. w.faultless (suc n);
        })

  give_up :
      (first : Bool) (remote : E) (packet : List ℕ) (retries counter : ℕ) (trace : List (Event E))
      (s : Operation E D)
      → counter ≡ suc retries
      → IsWaiting first remote packet retries counter trace s
      → IsGivenUp trace (step raw net f handle (expires success) s)
  unfolding retransmit finished
  give_up first remote packet retries counter trace s e w =
      rw
        (
          step-timeout first w.seconds s w.armed,
          lt→ltb s.tftp_retries s.transmit_counter (omega (arith, w.counted, w.allowed)),
          w.opened,
          w.observed,
          retransmit,
        )
        (record {
          no_reception = refl;
          no_timer = refl;
          closed = refl;
          told = ap (◌∷◌ (completed communication_error)) w.traced;
        })

  -- While an operation awaits an answer, to its request (`first`) or to a later packet, the packet is
  -- sent again, unchanged, at each of the next `k` timeouts, to the server's address if it is the
  -- request and over the connected socket otherwise, where it was sent `counter` times and
  -- `counter + k` is one more than the retries; the timeout after them gives up: the trace has the
  -- packet `k` more times and then the communication error, which is told to the completion handler,
  -- the socket is closed, and neither a reception nor a timer is left. No call of the socket or the
  -- timer throws, the socket is open, a completion handler is set, and no packet arrives meanwhile.
  pub run-timeouts :
      (first : Bool) (remote : E) (packet : List ℕ) (retries counter k : ℕ) (trace : List (Event E))
      (s : Operation E D)
      → counter + k ≡ suc retries
      → IsWaiting first remote packet retries counter trace s
      → IsGivenUp
          (replicate k (again first remote packet) ++ trace)
          (run raw net f handle (replicate (suc k) (expires success)) s)
  unfolding run
  run-timeouts first remote packet retries counter zero trace s e w =
      give_up first remote packet retries counter trace s (omega arith) w
  run-timeouts first remote packet retries counter (suc k) trace s e w =
      rw⁻¹ (replicate-append k (again first remote packet) trace) (
        run-timeouts first remote packet retries (suc counter) k (again first remote packet ∷ trace)
          _ (omega arith) (repeat first remote packet retries counter trace s (omega arith) w))
