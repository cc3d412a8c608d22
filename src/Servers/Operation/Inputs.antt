-- ===== src/Servers/Operation/Inputs.antt =====
-- lib/tftp/servers/implementation/OperationImpl.cpp: the completion handlers of the socket and the
-- timer, and an operation driven by what happens outside.
use tftp_senior_design.Base.{ℕ, false, none, some, List, [], ltb, length, ◌+◌, ◌∷◌, if◌then◌else◌}
use tftp_senior_design.Tftp.{communication_error, successful}
use tftp_senior_design.Network.{Completion, success, operation_aborted, failure, sent}
use tftp_senior_design.Helper.{RawData}
use tftp_senior_design.Packets.Header.{packet_type}
use tftp_senior_design.Packets.Statistic
use tftp_senior_design.Servers.Operation.{
  Operation, Timer, transfer_timer, dally_timer, advance, finished, abort, graceful_abort,
}

-- What happens to an operation from outside; the socket is connected to the client, so that packets
-- of other hosts do not arrive. The last two are handlers that were queued with success before the
-- operation cancelled or replaced them, which are called all the same.
pub data Input : Type 0 where
  arrives : Completion → List ℕ → Input
  expires : Completion → Input
  aborts : Input
  aborts_gracefully : ℕ → List ℕ → Input
  arrived_before : List ℕ → Input
  expired_before : Timer → Input

module _ (raw : RawData) {E D : Type 0} (derived_finished : D → D) where
  -- The part of `timeoutHandler` behind the checks of the error code.
  unfoldable pub retransmit : Operation E D → Operation E D
  retransmit s =
      if ltb s.tftp_retries s.transmit_counter
      then finished derived_finished communication_error none s
      else let counted = record (advance s) {
        transmit_statistic =
            Statistic.packet (packet_type raw s.transmit_packet) (length s.transmit_packet)
              s.transmit_statistic;
      } in
        (if s.faults 0
          then finished derived_finished communication_error none counted
          else record counted {
            trace = sent s.transmit_packet ∷ s.trace;
            transmit_counter = s.transmit_counter + 1;
            timing = some (transfer_timer, s.receive_timeout);
          })

  -- `timeoutHandler`.
  unfoldable pub timeout_handler : Completion → Operation E D → Operation E D
  timeout_handler operation_aborted s = s
  timeout_handler failure s = finished derived_finished communication_error none s
  timeout_handler success s = retransmit s

  -- `timeoutDallyHandler`.
  unfoldable pub timeout_dally_handler : Completion → Operation E D → Operation E D
  timeout_dally_handler operation_aborted s = s
  timeout_dally_handler failure s = finished derived_finished communication_error none s
  timeout_dally_handler success s = finished derived_finished successful none s

module _ (raw : RawData) {E D : Type 0} (derived_finished : D → D)
    (packet : E → List ℕ → Operation E D → Operation E D) where
  -- `receiveHandler`.
  unfoldable pub receive_handler : Completion → List ℕ → Operation E D → Operation E D
  receive_handler operation_aborted bytes s = s
  receive_handler failure bytes s = finished derived_finished communication_error none s
  receive_handler success bytes s = packet s.remote bytes s

  -- The completion of a reception calls the handler if it is registered, once.
  unfoldable pub arrive : Completion → List ℕ → Operation E D → Operation E D
  arrive c bytes s =
      if s.receiving then receive_handler c bytes (record s { receiving = false }) else s

  -- So does the expiry of the timer.
  unfoldable pub expire : Completion → Operation E D → Operation E D
  expire c s = elim s.timing [
    | none ↦ s
    | some (transfer_timer, seconds) ↦
        timeout_handler raw derived_finished c (record s { timing = none })
    | some (dally_timer, seconds) ↦
        timeout_dally_handler raw derived_finished c (record s { timing = none })
  ]

  -- A timer that had expired before it was cancelled or replaced: its handler is called all the same,
  -- and what is registered stays.
  unfoldable pub expire_before : Timer → Operation E D → Operation E D
  expire_before transfer_timer s = timeout_handler raw derived_finished success s
  expire_before dally_timer s = timeout_dally_handler raw derived_finished success s

  -- One input. A handler that is called as aborted was replaced or cancelled before, and does
  -- nothing.
  unfoldable pub step : Input → Operation E D → Operation E D
  step (arrives operation_aborted bytes) s = s
  step (arrives failure bytes) s = arrive failure bytes s
  step (arrives success bytes) s = arrive success bytes s
  step (expires operation_aborted) s = s
  step (expires failure) s = expire failure s
  step (expires success) s = expire success s
  step aborts s = abort derived_finished s
  step (aborts_gracefully code message) s = graceful_abort raw derived_finished code message s
  step (arrived_before bytes) s = receive_handler success bytes s
  step (expired_before timer) s = expire_before timer s

  unfoldable pub run : List Input → Operation E D → Operation E D
  run [] s = s
  run (i ∷ is) s = run is (step i s)
