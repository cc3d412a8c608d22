-- ===== src/Clients/WriteOperation/Keeps.antt =====
-- What the write operation's handlers preserve of its state, for any property with
-- the closure conditions that the sections name.
use tftp_senior_design.Base.{
  ℕ, ap, inl, inr, Bool, not, none, List, [], arith, ltb, if_elim, and-eq-false, Bool-cases,
  Option-cases, length, has_value, ◌-◌, ◌&&◌, ◌||◌, ◌∷◌, ◌==◌,
}
use tftp_senior_design.Tftp.{TransmitDataHandler, successful}
use tftp_senior_design.Network.{Event}
use tftp_senior_design.Helper.{RawData}
use tftp_senior_design.Text.Number.{u64_mod}
use tftp_senior_design.Packets.{
  block_size, timeout, transfer_size, block_size_option_min, block_size_option_max,
  timeout_option_min, timeout_option_max,
}
use tftp_senior_design.Packets.BlockNumber.{differ}
use tftp_senior_design.Packets.OptionMap.{Options, is_empty}
use tftp_senior_design.Packets.Options.{name, get_option}
use tftp_senior_design.Packets.Options.Values.{get_option_bounds}
use tftp_senior_design.Packets.OptionsAcknowledgement.{OptionsAcknowledgementPacket}
use tftp_senior_design.Packets.Acknowledgement.{AcknowledgementPacket}
use tftp_senior_design.Packets.BlockNumber.{next, increment, equal}
use tftp_senior_design.Clients.Operation.{finished, receive}
use tftp_senior_design.Clients.Operation.Keeps
use tftp_senior_design.Clients.Operation.Keeps.{Holds, IsClosed}
use tftp_senior_design.Clients.WriteOperation.Transfer.{
  next_block, send_data, continue_transfer, acknowledged, acknowledgement_packet,
}
use tftp_senior_design.Clients.RequestOptions.{IsNegotiable, deref}
use tftp_senior_design.Clients.WriteOperation.{WritePart, State, derived_finished}
use tftp_senior_design.Clients.WriteOperation.Negotiation.{
  accept_options, check_remaining, negotiate_additional, negotiate_transfer_size, negotiate_timeout,
  negotiate_block_size, options_acknowledgement_packet,
}

module _ (raw : RawData) {E H : Type 0} (h : TransmitDataHandler H)
    (Q : WritePart H → Bool → Bool → List (Event E) → Type 0)
    (kept : IsClosed (derived_finished h) Q)
    (resized : (d : WritePart H) (o b : Bool) (t : List (Event E)) (n : ℕ)
      → IsNegotiable d.options_configuration n
      → Q d o b t
      → Q (record d { transmit_data_size = n }) o b t)
    (acked : (d : WritePart H) (o b : Bool) (t : List (Event E)) (n : ℕ)
      → Q d o b t
      → Q (record d { last_received_block_number = n }) o b t)
    (taken : (d : WritePart H) (o b : Bool) (t : List (Event E))
      → Q d o b t
      → Q
          (record d {
            handler = (h.send_data d.handler d.transmit_data_size).1;
            last_transmitted_block_number = next d.last_transmitted_block_number;
            last_data_packet_transmitted =
                ltb (length (h.send_data d.handler d.transmit_data_size).0) d.transmit_data_size
                || d.last_data_packet_transmitted;
          })
          o
          b
          t) where
  send_data-kept : (s : State E H) → Holds Q s → Holds Q (send_data raw h s)
  unfolding send_data next_block increment
  send_data-kept s q =
      Keeps.send-kept raw _ Q kept _ _
        (taken s.derived s.is_open s.has_completion_handler s.trace q)

  continue_transfer-kept : (s : State E H) → Holds Q s → Holds Q (continue_transfer raw h s)
  unfolding continue_transfer
  continue_transfer-kept s q =
      if_elim (λ (t : State E H). Holds Q t) s.derived.last_data_packet_transmitted
        (finished (derived_finished h) successful none s)
        (receive (derived_finished h) (send_data raw h s))
        (λ e. Keeps.finished-kept raw _ Q kept _ _ s q)
        (λ e. Keeps.receive-kept raw _ Q kept _ (send_data-kept s q))

  acknowledged-kept :
      (p : AcknowledgementPacket) (s : State E H) → Holds Q s → Holds Q (acknowledged raw h p s)
  unfolding acknowledged
  acknowledged-kept p s q = elim (Bool-cases (equal p.block_number 0)) [
    | inr e ↦ rw (e, acknowledged) (continue_transfer-kept s q)
    | inl e ↦ elim (Option-cases s.derived.option_negotiation_handler) [
      | inl o ↦ rw (e, o, acknowledged) (continue_transfer-kept s q)
      | inr (f, o) ↦ elim (Bool-cases (f []).0) [
        | inl a ↦ rw (e, o, a, acknowledged) (continue_transfer-kept s q)
        | inr a ↦ rw (e, o, a, acknowledged) (Keeps.refuse-kept raw _ Q kept _ _ _ s q)
      ]
    ]
  ]

  pub acknowledgement_packet-kept :
      (remote : E) (p : AcknowledgementPacket) (s : State E H)
      → Holds Q s
      → Holds Q (acknowledgement_packet raw h remote p s)
  unfolding acknowledgement_packet
  acknowledgement_packet-kept remote p s q =
      let d = s.derived in
      elim (Bool-cases (equal p.block_number d.last_received_block_number)) [
        | inl e ↦ rw (e, acknowledgement_packet) (Keeps.receive-kept raw _ Q kept s q)
        | inr e ↦ elim (Bool-cases (differ p.block_number d.last_transmitted_block_number)) [
          | inl n ↦ rw (e, n, acknowledgement_packet) (Keeps.refuse-kept raw _ Q kept _ _ _ s q)
          | inr n ↦
              rw (e, n, acknowledgement_packet)
                (acknowledged-kept p _
                  (acked s.derived s.is_open s.has_completion_handler s.trace p.block_number q))
        ]
      ]

  accept_options-kept : (s : State E H) → Holds Q s → Holds Q (accept_options raw h s)
  unfolding accept_options
  accept_options-kept s q = Keeps.receive-kept raw _ Q kept _ (send_data-kept s q)

  check_remaining-kept :
      (m : Options) (s : State E H) → Holds Q s → Holds Q (check_remaining raw h m s)
  unfolding check_remaining
  check_remaining-kept [] s q = accept_options-kept s q
  check_remaining-kept (p ∷ m) s q = Keeps.refuse-kept raw _ Q kept _ _ _ s q

  negotiate_additional-kept :
      (m : Options) (s : State E H) → Holds Q s → Holds Q (negotiate_additional raw h m s)
  unfolding negotiate_additional
  negotiate_additional-kept m s q = elim (Option-cases s.derived.option_negotiation_handler) [
    | inl e ↦ rw (e, negotiate_additional) (check_remaining-kept m s q)
    | inr (f, e) ↦ elim (Bool-cases (f m).0) [
      | inl a ↦ rw (e, negotiate_additional) (rw a (check_remaining-kept (f m).1 s q))
      | inr r ↦ rw (e, negotiate_additional) (rw r (Keeps.refuse-kept raw _ Q kept _ _ _ s q))
    ]
  ]

  negotiate_transfer_size-kept :
      (m : Options) (s : State E H) → Holds Q s → Holds Q (negotiate_transfer_size raw h m s)
  unfolding negotiate_transfer_size
  negotiate_transfer_size-kept m s q =
      let (size, rest) = get_option 64 0 (u64_mod - 1) (name transfer_size) m in
      let d = s.derived in
      let expected =
        d.options_configuration.handle_transfer_size_option && has_value d.transfer_size in
      elim (Bool-cases (not expected && has_value size.value)) [
        | inl e ↦ rw (e, negotiate_transfer_size) (Keeps.refuse-kept raw _ Q kept _ _ _ s q)
        | inr e ↦ elim (Bool-cases (not size.valid)) [
          | inl v ↦ rw (e, v, negotiate_transfer_size) (Keeps.refuse-kept raw _ Q kept _ _ _ s q)
          | inr v ↦
              elim (Bool-cases
                (has_value size.value && not (deref size.value == deref d.transfer_size))) [
                  | inl a ↦
                      rw (e, v, a, negotiate_transfer_size)
                        (Keeps.refuse-kept raw _ Q kept _ _ _ s q)
                  | inr a ↦
                      rw (e, v, a, negotiate_transfer_size) (negotiate_additional-kept rest s q)
                ]
        ]
      ]

  negotiate_timeout-kept :
      (m : Options) (s : State E H) → Holds Q s → Holds Q (negotiate_timeout raw h m s)
  unfolding negotiate_timeout
  negotiate_timeout-kept m s q =
      let (seconds, rest) = get_option 8 timeout_option_min timeout_option_max (name timeout) m in
      let requested = s.derived.options_configuration.timeout_option in
      elim (Bool-cases (not (has_value requested) && has_value seconds.value)) [
        | inl e ↦ rw (e, negotiate_timeout) (Keeps.refuse-kept raw _ Q kept _ _ _ s q)
        | inr e ↦ elim (Bool-cases (not seconds.valid)) [
          | inl v ↦ rw (e, v, negotiate_timeout) (Keeps.refuse-kept raw _ Q kept _ _ _ s q)
          | inr v ↦ elim (Option-cases seconds.value) [
            | inl o ↦ rw (e, v, o, negotiate_timeout) (negotiate_transfer_size-kept rest s q)
            | inr (n, o) ↦ elim (Bool-cases (n == deref requested)) [
              | inl a ↦ rw (e, v, o, a, negotiate_timeout) (negotiate_transfer_size-kept rest _ q)
              | inr a ↦
                  rw (e, v, o, a, negotiate_timeout) (Keeps.refuse-kept raw _ Q kept _ _ _ s q)
            ]
          ]
        ]
      ]

  negotiate_block_size-kept :
      (m : Options) (s : State E H) → Holds Q s → Holds Q (negotiate_block_size raw h m s)
  unfolding negotiate_block_size
  negotiate_block_size-kept m s q =
      let (size, rest) =
        get_option 16 block_size_option_min block_size_option_max (name block_size) m in
      let bounds = λ (n : ℕ).
        get_option_bounds 16 block_size_option_min block_size_option_max n (name block_size) m
          (omega arith) in
      let requested = s.derived.options_configuration.block_size_option in
      elim (Bool-cases (not (has_value requested) && has_value size.value)) [
        | inl e ↦ rw (e, negotiate_block_size) (Keeps.refuse-kept raw _ Q kept _ _ _ s q)
        | inr e ↦ elim (Bool-cases (not size.valid)) [
          | inl v ↦ rw (e, v, negotiate_block_size) (Keeps.refuse-kept raw _ Q kept _ _ _ s q)
          | inr v ↦ elim (Option-cases size.value) [
            | inl o ↦ rw (e, v, o, negotiate_block_size) (negotiate_timeout-kept rest s q)
            | inr (n, o) ↦ elim (Bool-cases (ltb (deref requested) n)) [
              | inl a ↦
                  rw (e, v, o, a, negotiate_block_size) (Keeps.refuse-kept raw _ Q kept _ _ _ s q)
              | inr a ↦
                  rw (e, v, o, a, negotiate_block_size)
                    (negotiate_timeout-kept rest _ (
                      resized s.derived s.is_open s.has_completion_handler s.trace n
                        (record {
                          requested =
                              and-eq-false (has_value requested) (has_value size.value) e
                                (ap has_value o);
                          at_least = (bounds n o).1;
                          at_most = ground arith;
                        })
                        q))
            ]
          ]
        ]
      ]

  pub options_acknowledgement-kept :
      (remote : E) (p : OptionsAcknowledgementPacket) (s : State E H)
      → Holds Q s
      → Holds Q (options_acknowledgement_packet raw h remote p s)
  unfolding options_acknowledgement_packet
  options_acknowledgement-kept remote p s q =
      elim (Bool-cases (differ s.derived.last_received_block_number 0xffff)) [
        | inl e ↦ rw (e, options_acknowledgement_packet) (Keeps.refuse-kept raw _ Q kept _ _ _ s q)
        | inr e ↦ elim (Bool-cases (is_empty p.options)) [
          | inl v ↦
              rw (e, v, options_acknowledgement_packet) (Keeps.refuse-kept raw _ Q kept _ _ _ s q)
          | inr v ↦
              rw (e, v, options_acknowledgement_packet) (negotiate_block_size-kept p.options s q)
        ]
      ]
