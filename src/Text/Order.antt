-- ===== src/Text/Order.antt =====
-- The order of `std::less<>` on strings, by unsigned bytes.
use Prim.Native.Nat.{compare, Ordering}
use tftp_senior_design.Base.{ℕ, refl, List, [], arith, ◌≡◌, ◌∷◌}

unfoldable pub compare_text : List ℕ → List ℕ → Ordering
compare_text [] [] = Ordering.eq
compare_text [] (y ∷ ys) = Ordering.lt
compare_text (x ∷ xs) [] = Ordering.gt
compare_text (x ∷ xs) (y ∷ ys) = elim (compare x y) [
  | Ordering.lt ↦ Ordering.lt
  | Ordering.eq ↦ compare_text xs ys
  | Ordering.gt ↦ Ordering.gt
]

abbrev pub Less : List ℕ → List ℕ → Type 0
Less s t = compare_text s t ≡ Ordering.lt

pub compare_text-eq : (s t : List ℕ) → compare_text s t ≡ Ordering.eq → s ≡ t
unfolding compare_text
compare_text-eq [] [] h = refl
compare_text-eq [] (y ∷ ys) h = cc
compare_text-eq (x ∷ xs) [] h = cc
compare_text-eq (x ∷ xs) (y ∷ ys) h = ground (arith, compare_text-eq xs ys)

pub compare_text_self : (s : List ℕ) → compare_text s s ≡ Ordering.eq
unfolding compare_text
compare_text_self [] = refl
compare_text_self (x ∷ xs) = ground (arith, compare_text_self xs)

pub Less-flip : (s t : List ℕ) → Less s t → compare_text t s ≡ Ordering.gt
unfolding compare_text
Less-flip [] [] h = cc
Less-flip [] (y ∷ ys) h = refl
Less-flip (x ∷ xs) [] h = cc
Less-flip (x ∷ xs) (y ∷ ys) h = ground (arith, Less-flip xs ys)

pub gt-flip : (s t : List ℕ) → compare_text s t ≡ Ordering.gt → Less t s
unfolding compare_text
gt-flip [] [] h = cc
gt-flip [] (y ∷ ys) h = cc
gt-flip (x ∷ xs) [] h = refl
gt-flip (x ∷ xs) (y ∷ ys) h = ground (arith, gt-flip xs ys)

pub Less-trans : (s t u : List ℕ) → Less s t → Less t u → Less s u
unfolding compare_text
Less-trans [] [] u h k = cc
Less-trans [] (y ∷ ys) [] h k = cc
Less-trans [] (y ∷ ys) (z ∷ zs) h k = refl
Less-trans (x ∷ xs) [] u h k = cc
Less-trans (x ∷ xs) (y ∷ ys) [] h k = cc
Less-trans (x ∷ xs) (y ∷ ys) (z ∷ zs) h k = ground (arith, Less-trans xs ys zs)
