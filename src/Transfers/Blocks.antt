-- ===== src/Transfers/Blocks.antt =====
-- A file cut into blocks of a size.
use tftp_senior_design.Base.{
  ℕ, zero, suc, min, refl, sym, ap, List, [], arith, length, take, drop, length-take, length-drop,
  ◌+◌, ◌-◌, ◌≤◌, ◌<◌, ◌≡◌, ◌∙◌, ◌∷◌, ◌++◌,
}
use tftp_senior_design.Packets.BlockNumber.{block}
use tftp_senior_design.Packets.DataBlock.{DataPacket}

-- Where block `i` begins, counted from 0.
abbrev pub offset : ℕ → ℕ → ℕ
offset n zero = 0
offset n (suc i) = offset n i + n

-- Block `i`.
abbrev pub chunk : ℕ → List ℕ → ℕ → List ℕ
chunk n file i = take n (drop (offset n i) file)

pub take_nil : (n : ℕ) → take {A = ℕ} n [] ≡ []
take_nil zero = refl
take_nil (suc n) = refl

pub drop_nil : (n : ℕ) → drop {A = ℕ} n [] ≡ []
drop_nil zero = refl
drop_nil (suc n) = refl

suc_add : (m n : ℕ) → suc (m + n) ≡ suc m + n
suc_add m n = omega arith

pub take-append-take : (m n : ℕ) (xs : List ℕ) → take m xs ++ take n (drop m xs) ≡ take (m + n) xs
take-append-take zero n xs = ap (λ k. take k xs) (omega arith)
take-append-take (suc m) n [] = take_nil n ∙ sym (take_nil (suc m + n))
take-append-take (suc m) n (x ∷ xs) =
    ap (◌∷◌ x) (take-append-take m n xs) ∙ ap (λ k. take k (x ∷ xs)) (suc_add m n)

pub drop-drop : (m n : ℕ) (xs : List ℕ) → drop n (drop m xs) ≡ drop (m + n) xs
drop-drop zero n xs = ap (λ k. drop k xs) (omega arith)
drop-drop (suc m) n [] = drop_nil n ∙ sym (drop_nil (suc m + n))
drop-drop (suc m) n (x ∷ xs) = drop-drop m n xs ∙ ap (λ k. drop k (x ∷ xs)) (suc_add m n)

pub length-chunk :
    (n : ℕ) (file : List ℕ) (i : ℕ) → length (chunk n file i) ≡ min n (length file - offset n i)
length-chunk n file i =
    length-take n (drop (offset n i) file) ∙ ap (min n) (length-drop (offset n i) file)

-- A block is no longer than the size, and only the last block is shorter.
pub chunk_short :
    (n : ℕ) (file : List ℕ) (i : ℕ) → length (chunk n file i) < n → length file < offset n (suc i)
chunk_short n file i h = omega (arith, length-chunk n file i)

pub chunk_fits : (n : ℕ) (file : List ℕ) (i : ℕ) → length (chunk n file i) ≤ n
chunk_fits n file i = omega (arith, length-chunk n file i)

-- The data packet with block `i`; the first one has number 1.
abbrev pub block_packet : ℕ → List ℕ → ℕ → DataPacket
block_packet n file i = record { block_number = block (suc i); contents = chunk n file i }
