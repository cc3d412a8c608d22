-- ===== src/Clients/Operation/Keeps.antt =====
-- What OperationImpl preserves: it leaves the members of the derived class alone, but for completing
-- its data handler, and its functions call the completion handler in `finished` only.
use tftp_senior_design.Base.{
  ℕ, refl, inl, inr, Bool, true, false, List, ltb, Bool-cases, ◌≡◌, ◌&&◌, ◌∷◌, if◌then◌else◌,
}
use tftp_senior_design.Tftp.{TransferStatus}
use tftp_senior_design.Network.{Event, completed}
use tftp_senior_design.Helper.{RawData}
use tftp_senior_design.Packets.ErrorMessage.{ErrorInformation}
use tftp_senior_design.Packets.Packet.{Packet}
use tftp_senior_design.Clients.Operation.{
  Operation, finished, receive_first, receive, receive_dally, prepare, send_first, send, refuse,
  Timer,
}
use tftp_senior_design.Clients.Operation.Inputs.{retransmit}

-- A property of the derived members, of whether the socket is open and a completion handler is set,
-- and of what was done.
abbrev pub Holds :
    {E D : Type 0} → (D → Bool → Bool → List (Event E) → Type 0) → Operation E D → Type 0
Holds P s = P s.derived s.is_open s.has_completion_handler s.trace

abbrev pub is_completion : {E : Type 0} → Event E → Bool
is_completion (completed status) = true
is_completion _ = false

-- The end of an operation and the packets that it sends preserve the property.
pub record IsClosed {E D : Type 0} (f : D → D) (P : D → Bool → Bool → List (Event E) → Type 0)
    : Type 0 where
  pub finished :
      (d : D) (o b : Bool) (status : TransferStatus) (t : List (Event E))
      → P d o b t
      → P (f d) false b (if o && b then completed status ∷ t else t)
  pub logged :
      (d : D) (o b : Bool) (t : List (Event E)) (e : Event E)
      → is_completion e ≡ false
      → P d o b t
      → P d o b (e ∷ t)

-- A property of the derived members alone.
abbrev pub OfMembers : {E D : Type 0} → (D → Type 0) → D → Bool → Bool → List (Event E) → Type 0
OfMembers P d o b t = P d

pub members-IsClosed :
    {E D : Type 0} (f : D → D) (P : D → Type 0)
    → ((d : D) → P d → P (f d))
    → IsClosed {E = E} f (OfMembers P)
members-IsClosed f P kept = record {
  finished = λ d o b status t p. kept d p;
  logged = λ d o b t e x p. p;
}

module _ (raw : RawData) {E D : Type 0} (f : D → D) (P : D → Bool → Bool → List (Event E) → Type 0)
    (kept : IsClosed f P) where
  pub finished-kept :
      (status : TransferStatus) (info : ErrorInformation) (s : Operation E D)
      → Holds P s
      → Holds P (finished f status info s)
  unfolding finished
  finished-kept status info s p =
      kept.finished s.derived s.is_open s.has_completion_handler status s.trace p

  pub receive_first-kept : (s : Operation E D) → Holds P s → Holds P (receive_first f s)
  unfolding receive_first finished
  receive_first-kept s p = elim (Bool-cases (s.faults 0)) [
    | inl e ↦
        rw (e, receive_first)
          (kept.finished s.derived s.is_open s.has_completion_handler _ s.trace p)
    | inr e ↦ rw (e, receive_first) p
  ]

  pub receive-kept : (s : Operation E D) → Holds P s → Holds P (receive f s)
  unfolding receive finished
  receive-kept s p = elim (Bool-cases (s.faults 0)) [
    | inl e ↦
        rw (e, receive) (kept.finished s.derived s.is_open s.has_completion_handler _ s.trace p)
    | inr e ↦ rw (e, receive) p
  ]

  pub receive_dally-kept : (s : Operation E D) → Holds P s → Holds P (receive_dally f s)
  unfolding receive_dally finished
  receive_dally-kept s p = elim (Bool-cases (s.faults 0)) [
    | inl e ↦
        rw (e, receive_dally)
          (kept.finished s.derived s.is_open s.has_completion_handler _ s.trace p)
    | inr e ↦ rw (e, receive_dally) p
  ]

  pub send_first-kept :
      (q : Packet) (s : Operation E D) → Holds P s → Holds P (send_first raw f q s)
  unfolding send_first prepare finished
  send_first-kept q s p = elim (Bool-cases (s.faults 0)) [
    | inl e ↦
        rw (e, send_first) (kept.finished s.derived s.is_open s.has_completion_handler _ s.trace p)
    | inr e ↦
        rw (e, send_first)
          (kept.logged s.derived s.is_open s.has_completion_handler s.trace _ refl p)
  ]

  pub send-kept : (q : Packet) (s : Operation E D) → Holds P s → Holds P (send raw f q s)
  unfolding send prepare finished
  send-kept q s p = elim (Bool-cases (s.faults 0)) [
    | inl e ↦ rw (e, send) (kept.finished s.derived s.is_open s.has_completion_handler _ s.trace p)
    | inr e ↦
        rw (e, send) (kept.logged s.derived s.is_open s.has_completion_handler s.trace _ refl p)
  ]

  pub refuse-kept :
      (code : ℕ) (message : List ℕ) (status : TransferStatus) (s : Operation E D)
      → Holds P s
      → Holds P (refuse raw f code message status s)
  unfolding refuse
  refuse-kept code message status s p = finished-kept _ _ _ (send-kept _ s p)

  pub retransmit-kept :
      (event : Event E) (timer : Timer) (s : Operation E D)
      → is_completion event ≡ false
      → Holds P s
      → Holds P (retransmit raw f event timer s)
  unfolding retransmit finished
  retransmit-kept event timer s x p = elim (Bool-cases (ltb s.tftp_retries s.transmit_counter)) [
    | inl l ↦
        rw (l, retransmit) (kept.finished s.derived s.is_open s.has_completion_handler _ s.trace p)
    | inr l ↦ elim (Bool-cases (s.faults 0)) [
      | inl e ↦
          rw (l, e, retransmit)
            (kept.finished s.derived s.is_open s.has_completion_handler _ s.trace p)
      | inr e ↦
          rw (l, e, retransmit)
            (kept.logged s.derived s.is_open s.has_completion_handler s.trace event x p)
    ]
  ]
