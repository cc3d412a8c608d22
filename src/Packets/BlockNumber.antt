-- ===== src/Packets/BlockNumber.antt =====
-- lib/tftp/packets/BlockNumber: a 16-bit block number, a number below 65536.
use tftp_senior_design.Base.{
  ℕ, zero, suc, refl, Bool, not, arith, ◌+◌, ◌%◌, ◌≤◌, ◌≡◌, ◌≢◌, ◌==◌, if◌then◌else◌,
}
use tftp_senior_design.Helper.{IsU16}

-- `BlockNumber::next`: 65535 is followed by 1.
unfoldable pub next : ℕ → ℕ
next n = if n == 0xffff then 1 else (n + 1) % 65536

-- `operator++()`: the new number.
unfoldable pub increment : ℕ → ℕ
unfolding next
increment n = next n

-- `operator++(int)`: the old number, and the new one.
unfoldable pub post_increment : ℕ → ℕ × ℕ
unfolding next
post_increment n = (n, next n)

-- `operator==` and `operator!=`.
abbrev pub equal : ℕ → ℕ → Bool
equal a b = a == b

abbrev pub differ : ℕ → ℕ → Bool
differ a b = not (a == b)

-- The number of the `k`-th block after block 0, one step at a time.
unfoldable pub block : ℕ → ℕ
block zero = 0
block (suc k) = next (block k)

pub next_bounds : (n : ℕ) → IsU16 n → (1 ≤ next n) × IsU16 (next n)
unfolding next
next_bounds n h = ground arith

pub next-ne : (n : ℕ) → IsU16 n → next n ≢ n
unfolding next
next-ne n h = ground arith

-- Two blocks have one successor only if they are equal, or one is block 0 and the other 65535.
pub next_injective : (m n : ℕ) → IsU16 m → IsU16 n → 1 ≤ m → 1 ≤ n → next m ≡ next n → m ≡ n
unfolding next
next_injective m n hm hn pm pn e = ground arith

-- The k-th block after block 1 has the number k modulo 65535, plus 1: the numbers run from 1 to
-- 65535, and 0 does not come again.
pub block-suc : (k : ℕ) → block (suc k) ≡ k % 65535 + 1
unfolding block next
block-suc zero = refl
block-suc (suc k) = ground (arith, block-suc k)

pub block-IsU16 : (k : ℕ) → IsU16 (block k)
unfolding block
block-IsU16 zero = omega arith
block-IsU16 (suc k) = omega (arith, block-suc k)
