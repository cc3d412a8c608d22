-- ===== src/Text/Number.antt =====
-- `std::to_string` and `std::stoull`: decimal numbers as text.
use native.Mathlib.Decide.{dec_lt}
use tftp_senior_design.Base.{
  ℕ, zero, suc, refl, ap, Bool, true, false, List, [], append_assoc, arith, ltb, leb, ◌+◌, ◌-◌, ◌*◌,
  ◌/◌, ◌%◌, ◌^◌, ◌≤◌, ◌<◌, ◌≡◌, ◌∙◌, ◌&&◌, ◌||◌, ◌∷◌, ◌++◌, ◌==◌, if◌then◌else◌,
}

abbrev pub u64_mod : ℕ
u64_mod = 2 ^ 64

-- The decimal digits on fuel, one for each digit.
unfoldable pub digits : ℕ → ℕ → List ℕ
digits zero n = []
digits (suc fuel) n = elim (ltb n 10) [
  | true ↦ (b'0' + n) ∷ []
  | false ↦ digits fuel (n / 10) ++ ((b'0' + n % 10) ∷ [])
]

-- `std::to_string` of an unsigned number of up to 64 bits, which has 20 digits at most.
unfoldable pub to_string : ℕ → List ℕ
to_string n = digits 20 n

-- What `std::stoull` returns or throws.
pub data Conversion : Type 0 where
  converted : ℕ → Conversion
  invalid_argument out_of_range : Conversion

abbrev pub is_digit : ℕ → Bool
is_digit c = leb b'0' c && leb c b'9'

abbrev pub is_space : ℕ → Bool
is_space c = c == 32 || (leb 9 c && leb c 13)

unfoldable pub skip_space : List ℕ → List ℕ
skip_space [] = []
skip_space (c ∷ s) = if is_space c then skip_space s else c ∷ s

-- The value of the digits in front, after those whose value is `acc`.
unfoldable pub accumulate : ℕ → List ℕ → ℕ
accumulate acc [] = acc
accumulate acc (c ∷ s) =
    let more = accumulate (acc * 10 + (c - b'0')) s in if is_digit c then more else acc

unfoldable pub convert : Bool → List ℕ → Conversion
convert negative [] = invalid_argument
convert negative (c ∷ s) =
    if is_digit c
    then (let n = accumulate 0 (c ∷ s) in
        if ltb n u64_mod
        then converted (if negative then (u64_mod - n) % u64_mod else n)
        else out_of_range)
    else invalid_argument

unfoldable pub convert_signed : List ℕ → Conversion
convert_signed [] = invalid_argument
convert_signed (c ∷ s) =
    if c == b'+'
    then convert false s
    else if c == b'-'
    then convert true s
    else convert false (c ∷ s)

-- `std::stoull( s )`: spaces, a sign, and digits up to the first character that is none.
unfoldable pub stoull : List ℕ → Conversion
stoull s = convert_signed (skip_space s)

-- A text that does not go on with a digit.
abbrev pub IsEnd : List ℕ → Type 0
IsEnd [] = Unit {0}
IsEnd (c ∷ s) = is_digit c ≡ false

accumulate-end : (acc : ℕ) (rest : List ℕ) → IsEnd rest → accumulate acc rest ≡ acc
unfolding accumulate
accumulate-end acc [] e = refl
accumulate-end acc (c ∷ s) e = rw e

accumulate-digit :
    (acc d : ℕ) (rest : List ℕ)
    → d < 10
    → accumulate acc ((b'0' + d) ∷ rest) ≡ accumulate (acc * 10 + d) rest
unfolding accumulate
accumulate-digit acc d rest h = ground arith

digits_one : (fuel n : ℕ) → n < 10 → digits (suc fuel) n ≡ (b'0' + n) ∷ []
unfolding digits
digits_one fuel n h = ground arith

digits_more :
    (fuel n : ℕ) → 10 ≤ n → digits (suc fuel) n ≡ digits fuel (n / 10) ++ ((b'0' + n % 10) ∷ [])
unfolding digits
digits_more fuel n h = ground arith

-- Reading on behind the digits of `n`.
accumulate-digits :
    (fuel n : ℕ) (rest : List ℕ)
    → n < 10 ^ suc fuel
    → accumulate 0 (digits (suc fuel) n ++ rest) ≡ accumulate n rest
accumulate-digits zero n rest h =
    rw (digits_one 0 n (omega arith)) (accumulate-digit 0 n rest (omega arith) ∙ ground arith)
accumulate-digits (suc fuel) n rest h = elim (dec_lt n 10) [
  | yes small ↦
      rw (digits_one (suc fuel) n small)
        (accumulate-digit 0 n rest small ∙ ap (λ t. accumulate t rest) (omega arith))
  | no large ↦
      rw (digits_more (suc fuel) n (omega arith), append_assoc)
        (accumulate-digits fuel (n / 10) ((b'0' + n % 10) ∷ rest) (omega arith)
          ∙ accumulate-digit (n / 10) (n % 10) rest (omega arith)
          ∙ ap (λ t. accumulate t rest) (omega arith))
]

-- A number starts with a digit.
digits_head :
    (fuel n : ℕ)
    → n < 10 ^ suc fuel
    → (c : ℕ) × (s : List ℕ) × (digits (suc fuel) n ≡ c ∷ s) × (is_digit c ≡ true)
digits_head zero n h = (b'0' + n, [], digits_one 0 n (omega arith), ground arith)
digits_head (suc fuel) n h = elim (dec_lt n 10) [
  | yes small ↦ (b'0' + n, [], digits_one (suc fuel) n small, ground arith)
  | no large ↦
      let (c, s, e, d) = digits_head fuel (n / 10) (omega arith) in
      (c, s ++ ((b'0' + n % 10) ∷ []), digits_more (suc fuel) n (omega arith) ∙ rw e, d)
]

stoull_digit :
    (c : ℕ) (s : List ℕ)
    → is_digit c ≡ true
    → accumulate 0 (c ∷ s) < u64_mod
    → stoull (c ∷ s) ≡ converted (accumulate 0 (c ∷ s))
unfolding stoull skip_space convert_signed convert
stoull_digit c s d h = ground arith

-- `stoull` reads back what `to_string` wrote, whatever follows that is no digit.
pub stoull-to_string :
    (n : ℕ) (rest : List ℕ) → n < u64_mod → IsEnd rest → stoull (to_string n ++ rest) ≡ converted n
unfolding to_string
stoull-to_string n rest h e =
    let (c, s, f, d) = digits_head 19 n (omega arith) in
    let value : accumulate 0 (digits 20 n ++ rest) ≡ n =
      accumulate-digits 19 n rest (omega arith) ∙ accumulate-end n rest e in
    let joined : digits 20 n ++ rest ≡ c ∷ (s ++ rest) = rw f in
    let read : accumulate 0 (c ∷ (s ++ rest)) ≡ n = rw joined at value in
    rw joined (stoull_digit c (s ++ rest) d (omega arith) ∙ ap converted read)

pub stoull_nil : stoull [] ≡ invalid_argument
unfolding stoull skip_space convert_signed
stoull_nil = refl
