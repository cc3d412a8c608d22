-- ===== src/Text.antt =====
-- What the sources use of the standard library's strings: a string is the list of its bytes.
pub mod Order
pub mod Number
use Prim.Native.Char.{code}
use Prim.Native.String.{String}
use tftp_senior_design.Base.{
  ℕ, zero, suc, refl, Option, none, some, List, [], arith, leb, length, take, drop, All, ◌-◌, ◌<◌,
  ◌≡◌, ◌&&◌, ◌∷◌, ◌++◌, if◌then◌else◌,
}

abbrev codes : String → List ℕ
codes String.[] = []
codes (String.◌∷◌ c s) = code c ∷ codes s

-- The bytes of a literal.
unfoldable pub text : String → List ℕ
text s = codes s

-- `find( '\0' )`, where `none` is `npos`.
unfoldable pub find_nul : List ℕ → Option ℕ
find_nul [] = none
find_nul (zero ∷ s) = some 0
find_nul (suc c ∷ s) = elim (find_nul s) [ none ↦ none | some n ↦ some (suc n) ]

-- A string without the character 0.
abbrev pub IsNulFree : List ℕ → Type 0
IsNulFree s = All (λ c. 0 < c) s

-- `substr( 0, n )`, and `substr( n + 1 )`.
abbrev pub before : ℕ → List ℕ → List ℕ
before n s = take n s

abbrev pub after : ℕ → List ℕ → List ℕ
after n s = drop (suc n) s

pub find_nul-append : (s rest : List ℕ) → IsNulFree s → find_nul (s ++ (0 ∷ rest)) ≡ some (length s)
unfolding find_nul
find_nul-append [] rest h = refl
find_nul-append (zero ∷ s) rest h = absurd (omega arith)
find_nul-append (suc c ∷ s) rest h = rw (find_nul-append s rest h.1)

pub after-append : (s rest : List ℕ) → after (length s) (s ++ (0 ∷ rest)) ≡ rest
after-append [] rest = refl
after-append (x ∷ s) rest = after-append s rest

pub find_nul_bound : (s : List ℕ) (n : ℕ) → find_nul s ≡ some n → n < length s
unfolding find_nul
find_nul_bound [] n h = cc
find_nul_bound (zero ∷ s) n h = ground arith
find_nul_bound (suc c ∷ s) zero h = omega arith
find_nul_bound (suc c ∷ s) (suc n) h = ground (arith, find_nul_bound s n)

-- What stands before the first 0 has none.
pub before-IsNulFree : (s : List ℕ) (n : ℕ) → find_nul s ≡ some n → IsNulFree (before n s)
unfolding find_nul
before-IsNulFree s zero h = tt
before-IsNulFree [] (suc n) h = cc
before-IsNulFree (zero ∷ s) (suc n) h = ground arith
before-IsNulFree (suc c ∷ s) (suc n) h = (omega arith, before-IsNulFree s n (ground arith))

-- `toupper` in the C locale.
unfoldable pub to_upper : ℕ → ℕ
to_upper c = if leb b'a' c && leb c b'z' then c - 32 else c
