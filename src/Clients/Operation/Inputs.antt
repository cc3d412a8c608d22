-- ===== src/Clients/Operation/Inputs.antt =====
-- lib/tftp/clients/implementation/OperationImpl.cpp: the completion handlers of the socket and the
-- timer, and an operation driven by what happens outside.
use tftp_senior_design.Base.{
  ℕ, true, false, none, some, List, [], ltb, length, ◌+◌, ◌∷◌, if◌then◌else◌,
}
use tftp_senior_design.Text.{text}
use tftp_senior_design.Tftp.{communication_error, aborted}
use tftp_senior_design.Network.{
  Network, Completion, success, operation_aborted, failure, Event, sent, sent_to, connected,
}
use tftp_senior_design.Helper.{RawData}
use tftp_senior_design.Packets.ErrorCode
use tftp_senior_design.Packets.Header.{packet_type}
use tftp_senior_design.Packets.ErrorMessage.{ErrorPacket, error_information}
use tftp_senior_design.Packets.Packet.{Packet, kind, encode}
use tftp_senior_design.Packets.Statistic.{Statistic}
use tftp_senior_design.Packets.Statistic
use tftp_senior_design.Clients.Operation.{
  Operation, Input, arrives, expires, aborts, aborts_gracefully, arrived_before, expired_before,
  Receiver, first_receiver, receiver, Timer, first_timer, transfer_timer, dally_timer, advance, log,
  finished, abort, timeout_dally_handler, send,
}

module _ (raw : RawData) {E D : Type 0} (derived_finished : D → D) where
  -- The part of `timeoutFirstHandler` and `timeoutHandler` behind the checks of the error code:
  -- give up, or send the packet again by `event` and start `timer`.
  unfoldable pub retransmit : Event E → Timer → Operation E D → Operation E D
  retransmit event timer s =
      if ltb s.tftp_retries s.transmit_counter
      then finished derived_finished communication_error none s
      else let counted = record (advance s) {
        transmit_statistic =
            Statistic.packet (packet_type raw s.transmit_packet) (length s.transmit_packet)
              s.transmit_statistic;
      } in
        (if s.faults 0
          then finished derived_finished communication_error none counted
          else record counted {
            trace = event ∷ s.trace;
            transmit_counter = s.transmit_counter + 1;
            timing = some (timer, s.receive_timeout);
          })

  -- `timeoutFirstHandler`.
  unfoldable pub timeout_first_handler : Completion → Operation E D → Operation E D
  timeout_first_handler operation_aborted s = s
  timeout_first_handler failure s = finished derived_finished communication_error none s
  timeout_first_handler success s = retransmit (sent_to s.remote s.transmit_packet) first_timer s

  -- `timeoutHandler`.
  unfoldable pub timeout_handler : Completion → Operation E D → Operation E D
  timeout_handler operation_aborted s = s
  timeout_handler failure s = finished derived_finished communication_error none s
  timeout_handler success s = retransmit (sent s.transmit_packet) transfer_timer s

module _ (raw : RawData) {E D : Type 0} (net : Network E) (derived_finished : D → D)
    (packet : E → List ℕ → Operation E D → Operation E D) where
  -- `initialise`; a failure closes the socket and finishes the operation.
  unfoldable pub initialise : Operation E D → Operation E D
  initialise s =
      let reset = record (advance s) { receive_endpoint = net.no_endpoint } in
      if s.faults 0
      then finished derived_finished communication_error none (record reset { is_open = false })
      else record reset { is_open = true }

  -- `gracefulAbort`: nothing is sent if nothing was received.
  unfoldable pub graceful_abort : ℕ → List ℕ → Operation E D → Operation E D
  graceful_abort code message s =
      let p : ErrorPacket = record { error_code = code; error_message = message } in
      finished derived_finished aborted (error_information p) (
        if net.is_no_endpoint s.receive_endpoint
        then s
        else send raw derived_finished (Packet.error p) s)

  abbrev wrong_source : Packet
  wrong_source = Packet.error (record {
    error_code = ErrorCode.unknown_transfer_id;
    error_message = text "Packet from wrong source";
  })

  -- The branch of `receiveFirstHandler` for a packet of another host: it is answered, where a
  -- failure is ignored, and the reception starts anew.
  unfoldable pub reject_source : E → Operation E D → Operation E D
  reject_source sender s =
      let counted = record (advance (advance s)) {
        transmit_statistic =
            Statistic.packet (kind wrong_source) (length (encode raw wrong_source))
              s.transmit_statistic;
        trace = if s.faults 0 then s.trace else sent_to sender (encode raw wrong_source) ∷ s.trace;
      } in
      if s.faults 1
      then finished derived_finished communication_error none counted
      else record counted { receiving = some first_receiver }

  -- The branch for the expected host: connect, and handle the packet.
  unfoldable pub accept_source : E → List ℕ → Operation E D → Operation E D
  accept_source sender bytes s =
      if s.faults 0
      then finished derived_finished communication_error none (advance s)
      else packet sender bytes (log (connected sender) (advance s))

  -- `receiveFirstHandler`; `asio` has stored the sender.
  unfoldable pub receive_first_handler : Completion → E → List ℕ → Operation E D → Operation E D
  receive_first_handler operation_aborted sender bytes s = s
  receive_first_handler failure sender bytes s =
      finished derived_finished communication_error none s
  receive_first_handler success sender bytes s =
      let stored = record s { receive_endpoint = sender } in
      if net.same_address s.remote sender
      then accept_source sender bytes stored
      else reject_source sender stored

  -- `receiveHandler`.
  unfoldable pub receive_handler : Completion → List ℕ → Operation E D → Operation E D
  receive_handler operation_aborted bytes s = s
  receive_handler failure bytes s = finished derived_finished communication_error none s
  receive_handler success bytes s = packet s.receive_endpoint bytes s

  -- The completion of a reception calls the handler that is registered, once.
  unfoldable pub arrive : Completion → E → List ℕ → Operation E D → Operation E D
  arrive c sender bytes s = elim s.receiving [
    | none ↦ s
    | some first_receiver ↦ receive_first_handler c sender bytes (record s { receiving = none })
    | some receiver ↦ receive_handler c bytes (record s { receiving = none })
  ]

  -- So does the expiry of the timer.
  unfoldable pub expire : Completion → Operation E D → Operation E D
  expire c s = elim s.timing [
    | none ↦ s
    | some (first_timer, seconds) ↦
        timeout_first_handler raw derived_finished c (record s { timing = none })
    | some (transfer_timer, seconds) ↦
        timeout_handler raw derived_finished c (record s { timing = none })
    | some (dally_timer, seconds) ↦
        timeout_dally_handler derived_finished c (record s { timing = none })
  ]

  -- A reception that was complete, or a timer that had expired, before it was cancelled or replaced:
  -- its handler is called all the same, and what is registered stays.
  unfoldable pub arrive_before : Receiver → E → List ℕ → Operation E D → Operation E D
  arrive_before first_receiver sender bytes s = receive_first_handler success sender bytes s
  arrive_before receiver sender bytes s = receive_handler success bytes s

  unfoldable pub expire_before : Timer → Operation E D → Operation E D
  expire_before first_timer s = timeout_first_handler raw derived_finished success s
  expire_before transfer_timer s = timeout_handler raw derived_finished success s
  expire_before dally_timer s = timeout_dally_handler derived_finished success s

  -- One input. A handler that is called as aborted was replaced or cancelled before, and does
  -- nothing.
  unfoldable pub step : Input E → Operation E D → Operation E D
  step (arrives operation_aborted sender bytes) s = s
  step (arrives failure sender bytes) s = arrive failure sender bytes s
  step (arrives success sender bytes) s = arrive success sender bytes s
  step (expires operation_aborted) s = s
  step (expires failure) s = expire failure s
  step (expires success) s = expire success s
  step aborts s = abort derived_finished s
  step (aborts_gracefully code message) s = graceful_abort code message s
  step (arrived_before r sender bytes) s = arrive_before r sender bytes s
  step (expired_before timer) s = expire_before timer s

  unfoldable pub run : List (Input E) → Operation E D → Operation E D
  run [] s = s
  run (i ∷ is) s = run is (step i s)
