-- ===== src/Clients/Operation/Steps.antt =====
-- What a run of a client operation preserves, by what its functions preserve.
use tftp_senior_design.Base.{
  ℕ, refl, inl, inr, Bool, true, false, Option, none, some, List, [], if_elim, Bool-cases,
  Option-cases, ◌≡◌, ◌∷◌, if◌then◌else◌,
}
use tftp_senior_design.Tftp.{communication_error}
use tftp_senior_design.Network.{
  Network, Completion, success, operation_aborted, failure, Event, sent_to, connected,
}
use tftp_senior_design.Helper.{RawData}
use tftp_senior_design.Clients.Operation.{
  Operation, finished, abort, timeout_dally_handler, Input, arrives, expires, aborts,
  aborts_gracefully, arrived_before, expired_before, first_receiver, receiver, Receiver, Timer,
  first_timer, transfer_timer, dally_timer,
}
use tftp_senior_design.Clients.Operation.Inputs.{
  initialise, graceful_abort, timeout_first_handler, timeout_handler, reject_source, accept_source,
  receive_first_handler, receive_handler, arrive, expire, arrive_before, expire_before, step, run,
}
use tftp_senior_design.Clients.Operation.Keeps.{
  Holds, IsClosed, finished-kept, send-kept, retransmit-kept,
}

module _ (raw : RawData) {E D : Type 0} (f : D → D) (P : D → Bool → Bool → List (Event E) → Type 0)
    (kept : IsClosed f P) (net : Network E) (packet : E → List ℕ → Operation E D → Operation E D)
    (packet-kept : (remote : E) (bytes : List ℕ) (s : Operation E D)
      → Holds P s
      → Holds P (packet remote bytes s)) where
  pub initialise-kept :
      ((d : D) (o q b : Bool) (t : List (Event E)) → P d o b t → P d q b t)
      → (s : Operation E D) → Holds P s
      → Holds P (initialise raw net f packet s)
  unfolding initialise finished
  initialise-kept opened s p = elim (Bool-cases (s.faults 0)) [
    | inl e ↦
        rw (e, initialise)
          (kept.finished s.derived false s.has_completion_handler communication_error s.trace
            (opened s.derived s.is_open false s.has_completion_handler s.trace p))
    | inr e ↦
        rw (e, initialise) (opened s.derived s.is_open true s.has_completion_handler s.trace p)
  ]

  graceful_abort-kept :
      (code : ℕ) (message : List ℕ) (s : Operation E D)
      → Holds P s
      → Holds P (graceful_abort raw net f packet code message s)
  unfolding graceful_abort
  graceful_abort-kept code message s p = elim (Bool-cases (net.is_no_endpoint s.receive_endpoint)) [
    | inl e ↦ rw (e, graceful_abort) (finished-kept raw f P kept _ _ s p)
    | inr e ↦
        rw (e, graceful_abort) (finished-kept raw f P kept _ _ _ (send-kept raw f P kept _ s p))
  ]

  reject_source-kept :
      (sender : E) (s : Operation E D)
      → Holds P s
      → Holds P (reject_source raw net f packet sender s)
  unfolding reject_source finished
  reject_source-kept sender s p =
      let logged : P s.derived s.is_open s.has_completion_handler
          (if s.faults 0 then s.trace else sent_to sender _ ∷ s.trace) =
        if_elim (P s.derived s.is_open s.has_completion_handler) (s.faults 0) _ _ (λ e. p)
          (λ e. kept.logged s.derived s.is_open s.has_completion_handler s.trace _ refl p) in
      elim (Bool-cases (s.faults 1)) [
        | inl e ↦
            rw (e, reject_source)
              (kept.finished s.derived s.is_open s.has_completion_handler _ _ logged)
        | inr e ↦ rw (e, reject_source) logged
      ]

  accept_source-kept :
      (sender : E) (bytes : List ℕ) (s : Operation E D)
      → Holds P s
      → Holds P (accept_source raw net f packet sender bytes s)
  unfolding accept_source finished
  accept_source-kept sender bytes s p = elim (Bool-cases (s.faults 0)) [
    | inl e ↦
        rw (e, accept_source)
          (kept.finished s.derived s.is_open s.has_completion_handler _ s.trace p)
    | inr e ↦
        rw (e, accept_source)
          (packet-kept sender bytes _ (
            kept.logged s.derived s.is_open s.has_completion_handler s.trace (connected sender) refl
              p))
  ]

  receive_first_handler-kept :
      (c : Completion) (sender : E) (bytes : List ℕ) (s : Operation E D)
      → Holds P s
      → Holds P (receive_first_handler raw net f packet c sender bytes s)
  unfolding receive_first_handler
  receive_first_handler-kept operation_aborted sender bytes s p = p
  receive_first_handler-kept failure sender bytes s p = finished-kept raw f P kept _ _ s p
  receive_first_handler-kept success sender bytes s p =
      elim (Bool-cases (net.same_address s.remote sender)) [
        | inl e ↦ rw (e, receive_first_handler) (accept_source-kept sender bytes _ p)
        | inr e ↦ rw (e, receive_first_handler) (reject_source-kept sender _ p)
      ]

  receive_handler-kept :
      (c : Completion) (bytes : List ℕ) (s : Operation E D)
      → Holds P s
      → Holds P (receive_handler raw net f packet c bytes s)
  unfolding receive_handler
  receive_handler-kept operation_aborted bytes s p = p
  receive_handler-kept failure bytes s p = finished-kept raw f P kept _ _ s p
  receive_handler-kept success bytes s p = packet-kept _ bytes s p

  arrive-kept :
      (c : Completion) (sender : E) (bytes : List ℕ) (s : Operation E D)
      → Holds P s
      → Holds P (arrive raw net f packet c sender bytes s)
  unfolding arrive
  arrive-kept c sender bytes s p = go s.receiving refl
    where
      go :
          (r : Option Receiver)
          → s.receiving ≡ r
          → Holds P (arrive raw net f packet c sender bytes s)
      go none e = rw (e, arrive) p
      go (some first_receiver) e = rw (e, arrive) (receive_first_handler-kept c sender bytes _ p)
      go (some receiver) e = rw (e, arrive) (receive_handler-kept c bytes _ p)

  timeout-kept :
      (c : Completion) (t : Timer) (seconds : ℕ) (s : Operation E D)
      → s.timing ≡ some (t, seconds)
      → Holds P s
      → Holds P (expire raw net f packet c s)
  unfolding expire timeout_first_handler timeout_handler timeout_dally_handler
  timeout-kept operation_aborted first_timer n s e p = rw (e, expire) p
  timeout-kept operation_aborted transfer_timer n s e p = rw (e, expire) p
  timeout-kept operation_aborted dally_timer n s e p = rw (e, expire) p
  timeout-kept failure first_timer n s e p = rw (e, expire) (finished-kept raw f P kept _ _ _ p)
  timeout-kept failure transfer_timer n s e p = rw (e, expire) (finished-kept raw f P kept _ _ _ p)
  timeout-kept failure dally_timer n s e p = rw (e, expire) (finished-kept raw f P kept _ _ _ p)
  timeout-kept success first_timer n s e p =
      rw (e, expire) (retransmit-kept raw f P kept _ _ _ refl p)
  timeout-kept success transfer_timer n s e p =
      rw (e, expire) (retransmit-kept raw f P kept _ _ _ refl p)
  timeout-kept success dally_timer n s e p = rw (e, expire) (finished-kept raw f P kept _ _ _ p)

  expire-kept :
      (c : Completion) (s : Operation E D) → Holds P s → Holds P (expire raw net f packet c s)
  expire-kept c s p = elim (Option-cases s.timing) [
    | inl e ↦ unfold expire in rw (e, expire) p
    | inr ((t, n), e) ↦ timeout-kept c t n s e p
  ]

  arrive_before-kept :
      (r : Receiver) (sender : E) (bytes : List ℕ) (s : Operation E D)
      → Holds P s
      → Holds P (arrive_before raw net f packet r sender bytes s)
  unfolding arrive_before
  arrive_before-kept first_receiver sender bytes s p =
      receive_first_handler-kept success sender bytes s p
  arrive_before-kept receiver sender bytes s p = receive_handler-kept success bytes s p

  expire_before-kept :
      (t : Timer) (s : Operation E D) → Holds P s → Holds P (expire_before raw net f packet t s)
  unfolding expire_before timeout_first_handler timeout_handler timeout_dally_handler
  expire_before-kept first_timer s p = retransmit-kept raw f P kept _ _ _ refl p
  expire_before-kept transfer_timer s p = retransmit-kept raw f P kept _ _ _ refl p
  expire_before-kept dally_timer s p = finished-kept raw f P kept _ _ _ p

  step-kept : (i : Input E) (s : Operation E D) → Holds P s → Holds P (step raw net f packet i s)
  unfolding step abort
  step-kept (arrives operation_aborted sender bytes) s p = p
  step-kept (arrives failure sender bytes) s p = arrive-kept failure sender bytes s p
  step-kept (arrives success sender bytes) s p = arrive-kept success sender bytes s p
  step-kept (expires operation_aborted) s p = p
  step-kept (expires failure) s p = expire-kept failure s p
  step-kept (expires success) s p = expire-kept success s p
  step-kept aborts s p = finished-kept raw f P kept _ _ s p
  step-kept (aborts_gracefully code message) s p = graceful_abort-kept code message s p
  step-kept (arrived_before r sender bytes) s p = arrive_before-kept r sender bytes s p
  step-kept (expired_before timer) s p = expire_before-kept timer s p

  pub run-kept :
      (is : List (Input E)) (s : Operation E D) → Holds P s → Holds P (run raw net f packet is s)
  unfolding run
  run-kept [] s p = p
  run-kept (i ∷ is) s p = run-kept is _ (step-kept i s p)
