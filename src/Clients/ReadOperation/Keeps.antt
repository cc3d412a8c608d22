-- ===== src/Clients/ReadOperation/Keeps.antt =====
-- What the read operation's handlers preserve of its state, for any property with
-- the closure conditions that the sections name.
use tftp_senior_design.Base.{
  ℕ, ap, inl, inr, Bool, true, not, List, [], arith, ltb, and-eq-false, Bool-cases, Option-cases,
  has_value, ◌-◌, ◌≡◌, ◌&&◌, ◌∷◌, ◌==◌,
}
use tftp_senior_design.Tftp.{ReceiveDataHandler}
use tftp_senior_design.Helper.{RawData}
use tftp_senior_design.Text.Number.{u64_mod}
use tftp_senior_design.Packets.{
  block_size, timeout, transfer_size, block_size_option_min, block_size_option_max,
  timeout_option_min, timeout_option_max,
}
use tftp_senior_design.Packets.BlockNumber.{differ}
use tftp_senior_design.Packets.OptionMap.{Options, is_empty}
use tftp_senior_design.Packets.Options.{name, get_option}
use tftp_senior_design.Packets.Options.Values.{get_option_bounds}
use tftp_senior_design.Packets.OptionsAcknowledgement.{OptionsAcknowledgementPacket}
use tftp_senior_design.Network.{Event}
use tftp_senior_design.Clients.Operation.Keeps
use tftp_senior_design.Clients.Operation.Keeps.{Holds, IsClosed}
use tftp_senior_design.Clients.RequestOptions.{IsNegotiable, deref}
use tftp_senior_design.Clients.ReadOperation.{ReadPart, State, derived_finished}
use tftp_senior_design.Clients.ReadOperation.Negotiation.{
  accept_options, check_remaining, negotiate_additional, negotiate_transfer_size, negotiate_timeout,
  negotiate_block_size, options_acknowledgement_packet,
}

module _ (raw : RawData) {E H : Type 0} (h : ReceiveDataHandler H)
    (Q : ReadPart H → Bool → Bool → List (Event E) → Type 0)
    (kept : IsClosed (derived_finished h) Q)
    (resized : (d : ReadPart H) (o b : Bool) (t : List (Event E)) (n : ℕ)
      → IsNegotiable d.options_configuration n
      → Q d o b t
      → Q (record d { receive_data_size = n }) o b t)
    (told : (d : ReadPart H) (o b : Bool) (t : List (Event E)) (n : ℕ)
      → Q d o b t
      → Q (record d { handler = (h.received_transfer_size d.handler n).1 }) o b t)
    (confirmed : (d : ReadPart H) (o b : Bool) (t : List (Event E))
      → Q d o b t
      → Q (record d { oack_received = true }) o b t) where
  accept_options-kept : (s : State E H) → Holds Q s → Holds Q (accept_options raw h s)
  unfolding accept_options
  accept_options-kept s q = Keeps.receive-kept raw _ Q kept _ (
      Keeps.send-kept raw _ Q kept _ _
        (confirmed s.derived s.is_open s.has_completion_handler s.trace q))

  check_remaining-kept :
      (m : Options) (s : State E H) → Holds Q s → Holds Q (check_remaining raw h m s)
  unfolding check_remaining
  check_remaining-kept [] s q = accept_options-kept s q
  check_remaining-kept (p ∷ m) s q = Keeps.refuse-kept raw _ Q kept _ _ _ s q

  negotiate_additional-kept :
      (m : Options) (s : State E H) → Holds Q s → Holds Q (negotiate_additional raw h m s)
  unfolding negotiate_additional
  negotiate_additional-kept m s q = elim (Option-cases s.derived.option_negotiation_handler) [
    | inl e ↦ rw (e, negotiate_additional) (check_remaining-kept m s q)
    | inr (f, e) ↦ elim (Bool-cases (f m).0) [
      | inl a ↦ rw (e, negotiate_additional) (rw a (check_remaining-kept (f m).1 s q))
      | inr r ↦ rw (e, negotiate_additional) (rw r (Keeps.refuse-kept raw _ Q kept _ _ _ s q))
    ]
  ]

  negotiate_transfer_size-kept :
      (m : Options) (s : State E H) → Holds Q s → Holds Q (negotiate_transfer_size raw h m s)
  unfolding negotiate_transfer_size
  negotiate_transfer_size-kept m s q =
      let (size, rest) = get_option 64 0 (u64_mod - 1) (name transfer_size) m in
      let asked = s.derived.options_configuration.handle_transfer_size_option in
      elim (Bool-cases (not asked && has_value size.value)) [
        | inl e ↦ rw (e, negotiate_transfer_size) (Keeps.refuse-kept raw _ Q kept _ _ _ s q)
        | inr e ↦ elim (Bool-cases (not size.valid)) [
          | inl v ↦ rw (e, v, negotiate_transfer_size) (Keeps.refuse-kept raw _ Q kept _ _ _ s q)
          | inr v ↦ elim (Option-cases size.value) [
            | inl o ↦ rw (e, v, o, negotiate_transfer_size) (negotiate_additional-kept rest s q)
            | inr (n, o) ↦ elim (Bool-cases (h.received_transfer_size s.derived.handler n).0) [
              | inl a ↦
                  rw (e, v, o, a, negotiate_transfer_size)
                    (negotiate_additional-kept rest _
                      (told s.derived s.is_open s.has_completion_handler s.trace n q))
              | inr a ↦
                  rw (e, v, o, a, negotiate_transfer_size)
                    (Keeps.refuse-kept raw _ Q kept _ _ _ _
                      (told s.derived s.is_open s.has_completion_handler s.trace n q))
            ]
          ]
        ]
      ]

  negotiate_timeout-kept :
      (m : Options) (s : State E H) → Holds Q s → Holds Q (negotiate_timeout raw h m s)
  unfolding negotiate_timeout
  negotiate_timeout-kept m s q =
      let (seconds, rest) = get_option 8 timeout_option_min timeout_option_max (name timeout) m in
      let requested = s.derived.options_configuration.timeout_option in
      elim (Bool-cases (not (has_value requested) && has_value seconds.value)) [
        | inl e ↦ rw (e, negotiate_timeout) (Keeps.refuse-kept raw _ Q kept _ _ _ s q)
        | inr e ↦ elim (Bool-cases (not seconds.valid)) [
          | inl v ↦ rw (e, v, negotiate_timeout) (Keeps.refuse-kept raw _ Q kept _ _ _ s q)
          | inr v ↦ elim (Option-cases seconds.value) [
            | inl o ↦ rw (e, v, o, negotiate_timeout) (negotiate_transfer_size-kept rest s q)
            | inr (n, o) ↦ elim (Bool-cases (n == deref requested)) [
              | inl a ↦ rw (e, v, o, a, negotiate_timeout) (negotiate_transfer_size-kept rest _ q)
              | inr a ↦
                  rw (e, v, o, a, negotiate_timeout) (Keeps.refuse-kept raw _ Q kept _ _ _ s q)
            ]
          ]
        ]
      ]

  negotiate_block_size-kept :
      (m : Options) (s : State E H) → Holds Q s → Holds Q (negotiate_block_size raw h m s)
  unfolding negotiate_block_size
  negotiate_block_size-kept m s q =
      let (size, rest) =
        get_option 16 block_size_option_min block_size_option_max (name block_size) m in
      let bounds = λ (n : ℕ).
        get_option_bounds 16 block_size_option_min block_size_option_max n (name block_size) m
          (omega arith) in
      let requested = s.derived.options_configuration.block_size_option in
      elim (Bool-cases (not (has_value requested) && has_value size.value)) [
        | inl e ↦ rw (e, negotiate_block_size) (Keeps.refuse-kept raw _ Q kept _ _ _ s q)
        | inr e ↦ elim (Bool-cases (not size.valid)) [
          | inl v ↦ rw (e, v, negotiate_block_size) (Keeps.refuse-kept raw _ Q kept _ _ _ s q)
          | inr v ↦ elim (Option-cases size.value) [
            | inl o ↦ rw (e, v, o, negotiate_block_size) (negotiate_timeout-kept rest s q)
            | inr (n, o) ↦ elim (Bool-cases (ltb (deref requested) n)) [
              | inl a ↦
                  rw (e, v, o, a, negotiate_block_size) (Keeps.refuse-kept raw _ Q kept _ _ _ s q)
              | inr a ↦
                  rw (e, v, o, a, negotiate_block_size)
                    (negotiate_timeout-kept rest _ (
                      resized s.derived s.is_open s.has_completion_handler s.trace n
                        (record {
                          requested =
                              and-eq-false (has_value requested) (has_value size.value) e
                                (ap has_value o);
                          at_least = (bounds n o).1;
                          at_most = ground arith;
                        })
                        q))
            ]
          ]
        ]
      ]

  -- An OACK keeps a weaker property `P` in place of `Q`, if `Q` follows from it before block 1.
  pub options_acknowledgement-kept :
      (P : ReadPart H → Bool → Bool → List (Event E) → Type 0)
      → IsClosed (derived_finished h) P
      → ((d : ReadPart H) (o b : Bool) (t : List (Event E))
          → P d o b t
          → d.last_received_block_number ≡ 0
          → Q d o b t)
      → ((d : ReadPart H) (o b : Bool) (t : List (Event E)) → Q d o b t → P d o b t)
      → (remote : E) (p : OptionsAcknowledgementPacket) (s : State E H) → Holds P s
      → Holds P (options_acknowledgement_packet raw h remote p s)
  unfolding options_acknowledgement_packet
  options_acknowledgement-kept P pkept narrow widen remote p s q =
      elim (Bool-cases (differ s.derived.last_received_block_number 0)) [
        | inl e ↦ rw (e, options_acknowledgement_packet) (Keeps.refuse-kept raw _ P pkept _ _ _ s q)
        | inr e ↦ elim (Bool-cases (is_empty p.options)) [
          | inl v ↦
              rw (e, v, options_acknowledgement_packet) (Keeps.refuse-kept raw _ P pkept _ _ _ s q)
          | inr v ↦
              rw (e, v, options_acknowledgement_packet)
                (widen _ _ _ _ (
                  negotiate_block_size-kept p.options s
                    (narrow s.derived s.is_open s.has_completion_handler s.trace q (ground arith))))
        ]
      ]
