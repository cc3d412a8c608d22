-- ===== src/Packets/OptionMap.antt =====
-- lib/tftp/packets/Packets.hpp, Options: `std::map< std::string, std::string, std::less<> >`, as
-- the list of its entries in the order of iteration.
use Prim.Native.Nat.{Ordering}
use tftp_senior_design.Base.{
  ℕ, refl, Bool, true, false, Option, none, some, List, [], arith, All, ◌≡◌, ◌≢◌, ◌∷◌, ◌++◌,
}
use tftp_senior_design.Text.Order
use tftp_senior_design.Text.Order.{compare_text, Less}

abbrev pub Options : Type 0
Options = List (List ℕ × List ℕ)

abbrev pub is_empty : Options → Bool
is_empty [] = true
is_empty (p ∷ m) = false

-- `emplace` and `try_emplace`: an entry with this key stays as it is.
unfoldable pub emplace : List ℕ → List ℕ → Options → Options
emplace k v [] = (k, v) ∷ []
emplace k v ((j, w) ∷ m) = elim (compare_text k j) [
  | Ordering.lt ↦ (k, v) ∷ (j, w) ∷ m
  | Ordering.eq ↦ (j, w) ∷ m
  | Ordering.gt ↦ (j, w) ∷ emplace k v m
]

unfoldable pub lookup : List ℕ → Options → Option (List ℕ)
lookup k [] = none
lookup k ((j, w) ∷ m) = elim (compare_text k j) [ Ordering.eq ↦ some w | _ ↦ lookup k m ]

-- `erase`, and what `extract` leaves.
unfoldable pub erase : List ℕ → Options → Options
erase k [] = []
erase k ((j, w) ∷ m) = elim (compare_text k j) [ Ordering.eq ↦ m | _ ↦ (j, w) ∷ erase k m ]

-- The keys rise strictly, as they do in the map.
abbrev pub Above : List ℕ → Options → Type 0
Above k m = All (λ p. Less k p.0) m

abbrev pub IsSorted : Options → Type 0
IsSorted [] = Unit {0}
IsSorted ((j, w) ∷ m) = Above j m × IsSorted m

Above-trans : (k j : List ℕ) (m : Options) → Less k j → Above j m → Above k m
Above-trans k j [] h a = tt
Above-trans k j ((i, w) ∷ m) h a = (Order.Less-trans k j i h a.0, Above-trans k j m h a.1)

lookup-Above : (k : List ℕ) (m : Options) → Above k m → lookup k m ≡ none
unfolding lookup
lookup-Above k [] a = refl
lookup-Above k ((j, w) ∷ m) a = ground (arith, lookup-Above k m a.1)

erase-Above : (i k : List ℕ) (m : Options) → Above i m → Above i (erase k m)
unfolding erase
erase-Above i k [] a = tt
erase-Above i k ((j, w) ∷ m) a = ground (arith, erase-Above i k m a.1)

pub erase-IsSorted : (k : List ℕ) (m : Options) → IsSorted m → IsSorted (erase k m)
unfolding erase
erase-IsSorted k [] h = tt
erase-IsSorted k ((j, w) ∷ m) h = ground (arith, erase-IsSorted k m h.1, erase-Above j k m h.0)

-- An erased key is gone, and every other key keeps its value.
pub lookup-erase_self : (k : List ℕ) (m : Options) → IsSorted m → lookup k (erase k m) ≡ none
unfolding lookup erase
lookup-erase_self k [] h = refl
lookup-erase_self k ((j, w) ∷ m) h =
    ground (arith, lookup-erase_self k m h.1, lookup-Above k m, Order.compare_text-eq k j)

pub lookup-erase_ne : (i k : List ℕ) (m : Options) → i ≢ k → lookup i (erase k m) ≡ lookup i m
unfolding lookup erase
lookup-erase_ne i k [] d = refl
lookup-erase_ne i k ((j, w) ∷ m) d =
    ground (arith, lookup-erase_ne i k m d, Order.compare_text-eq k j, Order.compare_text-eq i j)

pub lookup-emplace_new :
    (k v : List ℕ) (m : Options) → lookup k m ≡ none → lookup k (emplace k v m) ≡ some v
unfolding lookup emplace
lookup-emplace_new k v [] h = ground (arith, Order.compare_text_self k)
lookup-emplace_new k v ((j, w) ∷ m) h =
    ground (arith, lookup-emplace_new k v m, Order.compare_text_self k)

pub lookup-emplace_ne :
    (i k v : List ℕ) (m : Options) → i ≢ k → lookup i (emplace k v m) ≡ lookup i m
unfolding lookup emplace
lookup-emplace_ne i k v [] d = ground (arith, Order.compare_text-eq i k)
lookup-emplace_ne i k v ((j, w) ∷ m) d =
    ground (arith, lookup-emplace_ne i k v m d, Order.compare_text-eq i k)

pub emplace_present :
    (k v w : List ℕ) (m : Options) → IsSorted m → lookup k m ≡ some w → emplace k v m ≡ m
unfolding lookup emplace
emplace_present k v w [] s h = cc
emplace_present k v w ((j, u) ∷ m) s h =
    ground (arith, emplace_present k v w m s.1, lookup-Above k m, Above-trans k j m)

-- A key above all others goes to the end.
abbrev pub Below : List ℕ → Options → Type 0
Below k m = All (λ p. Less p.0 k) m

pub emplace_last : (k v : List ℕ) (m : Options) → Below k m → emplace k v m ≡ m ++ ((k, v) ∷ [])
unfolding emplace
emplace_last k v [] h = refl
emplace_last k v ((j, w) ∷ m) h = ground (arith, emplace_last k v m h.1, Order.Less-flip j k h.0)
