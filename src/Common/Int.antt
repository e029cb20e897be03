-- ===== src/Common/Int.antt =====
-- Signed integers over the native numbers, as far as the program's `int` and `off_t` need them.
use Prim.Native.Nat.{ℕ, suc, ◌+◌, ◌-◌}
use mathlib.Core.Path.{◌≡◌, ap}
use mathlib.Core.Logic.{inl, inr}
use native.Mathlib.Omega.{arith}
use mathlib.Core.Bool.{Bool, true, false}
use libstreamlike.Common.Tests.{ltb, leb, ◌==◌, if◌then◌else◌, Bool-cases, ==_iff}

-- `negsuc n` is -(n + 1).
pub data ℤ : Type 0 where
  pos : ℕ → ℤ
  negsuc : ℕ → ℤ

abbrev pub pos_part : ℤ → ℕ
pos_part (pos n) = n
pos_part (negsuc n) = 0

abbrev pub neg_part : ℤ → ℕ
neg_part (pos n) = 0
neg_part (negsuc n) = suc n

abbrev pub ltb_ℤ : ℤ → ℤ → Bool
ltb_ℤ a b = ltb (pos_part a + neg_part b) (pos_part b + neg_part a)

-- `x == n` for an integer and a number
abbrev pub eq_ℤ : ℤ → ℕ → Bool
eq_ℤ (pos m) n = m == n
eq_ℤ (negsuc m) n = false

-- `off += n` for an `off_t` and a `size_t`
abbrev pub add_off : ℤ → ℕ → ℤ
add_off (pos m) n = pos (m + n)
add_off (negsuc m) n = if leb n m then negsuc (m - n) else pos (n - suc m)

-- To add twice is to add the sum.
pub add_off-add : (z : ℤ) (m n : ℕ) → add_off (add_off z m) n ≡ add_off z (m + n)
add_off-add (pos k) m n = ground arith
add_off-add (negsuc k) m n = elim (Bool-cases (leb m k)) [
  | inl le ↦ rw le (ground arith)
  | inr gt ↦ rw gt (ground arith)
]

pub add_off-zero : (z : ℤ) → add_off z 0 ≡ z
add_off-zero (pos k) = ground arith
add_off-zero (negsuc k) = ground arith

pub eq_ℤ-eq : (z : ℤ) (n : ℕ) → eq_ℤ z n ≡ true → z ≡ pos n
eq_ℤ-eq (pos m) n e = ap pos ((==_iff m n).0 e)
eq_ℤ-eq (negsuc m) n e = cc

pub ne-eq_ℤ : (z : ℤ) (n : ℕ) → eq_ℤ z n ≡ false → ¬ (z ≡ pos n)
ne-eq_ℤ (pos m) n e = λ h. absurd (ground (arith, e, h))
ne-eq_ℤ (negsuc m) n e = λ h. absurd (grind (arith, h))
