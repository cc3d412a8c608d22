-- ===== src/Servers/Operation/Retries.antt =====
-- lib/tftp/servers/implementation/OperationImpl.cpp, timeoutHandler: how often a packet is sent, and
-- what follows.
use tftp_senior_design.Base.{
  ℕ, zero, suc, refl, ap, true, false, none, some, List, arith, lt→ltb, le→ltb, replicate,
  replicate-append, ◌+◌, ◌≤◌, ◌≡◌, ◌∷◌, ◌++◌,
}
use tftp_senior_design.Tftp.{communication_error}
use tftp_senior_design.Network.{success, Event, sent, completed}
use tftp_senior_design.Helper.{RawData}
use tftp_senior_design.Servers.Operation.{Operation, finished, transfer_timer}
use tftp_senior_design.Servers.Operation.Inputs.{
  expires, retransmit, timeout_handler, expire, step, run,
}

-- A packet was sent `counter` times, at most `retries` of them may be followed by another, and an
-- answer is awaited; no call throws.
pub record IsWaiting {E D : Type 0} (packet : List ℕ) (retries counter : ℕ) (trace : List (Event E))
    (s : Operation E D) : Type 0 where
  pub seconds : ℕ
  pub armed : s.timing ≡ some (transfer_timer, seconds)
  pub sent_packet : s.transmit_packet ≡ packet
  pub allowed : s.tftp_retries ≡ retries
  pub counted : s.transmit_counter ≡ counter
  pub traced : s.trace ≡ trace
  pub opened : s.is_open ≡ true
  pub observed : s.has_completion_handler ≡ true
  pub faultless : (n : ℕ) → s.faults n ≡ false

-- Nothing is awaited any more, the socket is closed, and the completion handler was told.
pub record IsGivenUp {E D : Type 0} (trace : List (Event E)) (s : Operation E D) : Type 0 where
  pub no_reception : s.receiving ≡ false
  pub no_timer : s.timing ≡ none
  pub closed : s.is_open ≡ false
  pub told : s.trace ≡ completed communication_error ∷ trace

module _ (raw : RawData) {E D : Type 0} (f : D → D)
    (handle : E → List ℕ → Operation E D → Operation E D) where
  repeat :
      (packet : List ℕ) (retries counter : ℕ) (trace : List (Event E)) (s : Operation E D)
      → counter ≤ retries
      → IsWaiting packet retries counter trace s
      → IsWaiting packet retries
          (suc counter)
          (sent packet ∷ trace)
          (step raw f handle (expires success) s)
  unfolding step expire timeout_handler retransmit
  repeat packet retries counter trace s le w =
      rw
        (
          w.armed,
          le→ltb s.tftp_retries s.transmit_counter (omega (arith, w.counted, w.allowed)),
          w.faultless 0,
          step,
        )
        (record {
          seconds = s.receive_timeout;
          armed = refl;
          sent_packet = w.sent_packet;
          allowed = w.allowed;
          counted = omega (arith, w.counted);
          traced = rw (w.sent_packet, w.traced) refl;
          opened = w.opened;
          observed = w.observed;
          faultless = λ n. w.faultless (suc n);
        })

  give_up :
      (packet : List ℕ) (retries : ℕ) (trace : List (Event E)) (s : Operation E D)
      → IsWaiting packet retries (suc retries) trace s
      → IsGivenUp trace (step raw f handle (expires success) s)
  unfolding step expire timeout_handler retransmit finished
  give_up packet retries trace s w =
      rw
        (
          w.armed,
          lt→ltb s.tftp_retries s.transmit_counter (omega (arith, w.counted, w.allowed)),
          w.opened,
          w.observed,
          step,
        )
        (record {
          no_reception = refl;
          no_timer = refl;
          closed = refl;
          told = ap (◌∷◌ (completed communication_error)) w.traced;
        })

  -- An operation whose packet was sent `counter` times sends it again, unchanged, at each of the
  -- next `k` timeouts, where `counter + k` is one more than the retries, and gives up at the one
  -- after them: the trace has the packet `k` more times and then the communication error, which is
  -- told to the completion handler, the socket is closed, and neither a reception nor a timer is
  -- left. The operation awaits an answer and does not dally, no call of the socket or the timer
  -- throws, the socket is open, a completion handler is set, and no packet arrives meanwhile.
  pub run-server_timeouts :
      (packet : List ℕ) (retries counter k : ℕ) (trace : List (Event E)) (s : Operation E D)
      → counter + k ≡ suc retries
      → IsWaiting packet retries counter trace s
      → IsGivenUp
          (replicate k (sent packet) ++ trace)
          (run raw f handle (replicate (suc k) (expires success)) s)
  unfolding run
  run-server_timeouts packet retries counter zero trace s e w =
      give_up packet retries trace s (record {
        seconds = w.seconds;
        armed = w.armed;
        sent_packet = w.sent_packet;
        allowed = w.allowed;
        counted = omega (arith, w.counted);
        traced = w.traced;
        opened = w.opened;
        observed = w.observed;
        faultless = w.faultless;
      })
  run-server_timeouts packet retries counter (suc k) trace s e w =
      rw⁻¹ (replicate-append k (sent packet) trace) (
        run-server_timeouts packet retries (suc counter) k (sent packet ∷ trace) _ (omega arith)
          (repeat packet retries counter trace s (omega arith) w))
