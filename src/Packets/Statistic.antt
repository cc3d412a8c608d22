-- ===== src/Packets/Statistic.antt =====
-- lib/tftp/packets/PacketStatistic.cpp: packet counts and sizes by packet type, as the list of the
-- map's entries in the order of the opcodes. Both numbers of an entry are `size_t`s.
use Prim.Native.Nat.{compare, Ordering}
use tftp_senior_design.Base.{ℕ, refl, ap, List, [], arith, ◌+◌, ◌%◌, ◌^◌, ◌≡◌, ◌∙◌, ◌∷◌}
use tftp_senior_design.Packets.{PacketType, opcode}

abbrev pub size_mod : ℕ
size_mod = 2 ^ 64

pub record Value : Type 0 where
  pub count : ℕ
  pub total_size : ℕ

abbrev pub Statistic : Type 0
Statistic = List (PacketType × Value)

abbrev add : ℕ → Value → Value
add n v = record { count = (v.count + 1) % size_mod; total_size = (v.total_size + n) % size_mod }

-- `PacketStatistic::packet`; `operator[]` makes an entry of zeros for a new type.
unfoldable pub packet : PacketType → ℕ → Statistic → Statistic
packet t n [] = (t, add n (record { count = 0; total_size = 0 })) ∷ []
packet t n ((u, v) ∷ m) = elim (compare (opcode t) (opcode u)) [
  | Ordering.lt ↦ (t, add n (record { count = 0; total_size = 0 })) ∷ (u, v) ∷ m
  | Ordering.eq ↦ (u, add n v) ∷ m
  | Ordering.gt ↦ (u, v) ∷ packet t n m
]

abbrev accumulate : Value → Value → Value
accumulate a v = record {
  count = (a.count + v.count) % size_mod;
  total_size = (a.total_size + v.total_size) % size_mod;
}

unfoldable pub total_loop : Value → Statistic → Value
total_loop a [] = a
total_loop a ((t, v) ∷ m) = total_loop (accumulate a v) m

-- `PacketStatistic::total`.
unfoldable pub total : Statistic → Value
total m = total_loop (record { count = 0; total_size = 0 }) m

-- `PacketStatistic::reset`.
unfoldable pub reset : Statistic → Statistic
reset m = []

total_loop-add :
    (n : ℕ) (a : Value) (m : Statistic) → total_loop (add n a) m ≡ add n (total_loop a m)
unfolding total_loop
total_loop-add n a [] = refl
total_loop-add n a ((t, v) ∷ m) =
    ap (λ (b : Value). total_loop b m) regroup ∙ total_loop-add n (accumulate a v) m
  where
    regroup : accumulate (add n a) v ≡ add n (accumulate a v)
    regroup = λ i. record {
      count =
          (let e : ((a.count + 1) % size_mod + v.count) % size_mod
                  ≡ ((a.count + v.count) % size_mod + 1) % size_mod =
                omega arith in
              e)
            i;
      total_size =
          (let e : ((a.total_size + n) % size_mod + v.total_size) % size_mod
                  ≡ ((a.total_size + v.total_size) % size_mod + n) % size_mod =
                omega arith in
              e)
            i;
    }

accumulate-add : (n : ℕ) (a v : Value) → accumulate a (add n v) ≡ add n (accumulate a v)
accumulate-add n a v = λ i. record {
  count =
      (let e : (a.count + (v.count + 1) % size_mod) % size_mod
              ≡ ((a.count + v.count) % size_mod + 1) % size_mod =
            omega arith in
          e)
        i;
  total_size =
      (let e : (a.total_size + (v.total_size + n) % size_mod) % size_mod
              ≡ ((a.total_size + v.total_size) % size_mod + n) % size_mod =
            omega arith in
          e)
        i;
}

accumulate_first :
    (n : ℕ) (a : Value) → accumulate a (add n (record { count = 0; total_size = 0 })) ≡ add n a
accumulate_first n a = λ i. record {
  count =
      (let e : (a.count + (0 + 1) % size_mod) % size_mod ≡ (a.count + 1) % size_mod = omega arith in
          e)
        i;
  total_size =
      (let e : (a.total_size + (0 + n) % size_mod) % size_mod ≡ (a.total_size + n) % size_mod =
            omega arith in
          e)
        i;
}

total_loop-packet :
    (t : PacketType) (n : ℕ) (a : Value) (m : Statistic)
    → total_loop a (packet t n m) ≡ add n (total_loop a m)
unfolding packet total_loop
total_loop-packet t n a [] = accumulate_first n a
total_loop-packet t n a ((u, v) ∷ m) =
    split (compare (opcode t) (opcode u)) refl (total_loop-packet t n (accumulate a v) m)
  where
    split :
        (o : Ordering)
        → compare (opcode t) (opcode u) ≡ o
        → total_loop (accumulate a v) (packet t n m) ≡ add n (total_loop (accumulate a v) m)
        → total_loop a (packet t n ((u, v) ∷ m)) ≡ add n (total_loop (accumulate a v) m)
    split Ordering.lt e ih =
        rw (e, packet)
          (ap (λ (b : Value). total_loop (accumulate b v) m) (accumulate_first n a)
            ∙ total_loop-add n a ((u, v) ∷ m))
    split Ordering.eq e ih =
        rw (e, packet)
          (ap (λ (b : Value). total_loop b m) (accumulate-add n a v)
            ∙ total_loop-add n (accumulate a v) m)
    split Ordering.gt e ih = rw (e, packet) ih

-- A packet adds one to the total count and its size to the total size, both modulo 2 ^ 64, whatever
-- its type and the entries before.
pub total-packet : (t : PacketType) (n : ℕ) (m : Statistic) → total (packet t n m) ≡ add n (total m)
unfolding total
total-packet t n m = total_loop-packet t n (record { count = 0; total_size = 0 }) m
