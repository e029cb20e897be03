-- ===== src/Common/Size.antt =====
-- `size_t`: numbers below 2 ^ 64 whose sums and differences wrap.
use Prim.Native.Nat.{ℕ, ◌+◌, ◌-◌, ◌%◌, ◌^◌, ◌≤◌, ◌<◌}
use mathlib.Core.Path.{◌≡◌, ◌∙◌}
use mathlib.Core.Logic.{inl, inr}
use native.Mathlib.Nat.{mod-eq_of_lt, mod-eq-sub-mod}
use libstreamlike.Common.Tests.{ltb, if◌then◌else◌, Bool-cases}
use native.Mathlib.Omega.{arith}

abbrev pub size_mod : ℕ
size_mod = 2 ^ 64

-- No block is larger than `PTRDIFF_MAX`, so the sum of two offsets into a block does not wrap.
abbrev pub ptrdiff_max : ℕ
ptrdiff_max = 2 ^ 63 - 1

-- `a + b` in `size_t`
unfoldable pub add_size : ℕ → ℕ → ℕ
add_size a b = (a + b) % size_mod

-- `a - b` in `size_t`
unfoldable pub sub_size : ℕ → ℕ → ℕ
sub_size a b = (a + size_mod - b) % size_mod

pub add_size-eq : (a b : ℕ) → a + b < size_mod → add_size a b ≡ a + b
unfolding add_size
add_size-eq a b h = omega arith

pub sub_size-eq : (a b : ℕ) → b ≤ a → a < size_mod → sub_size a b ≡ a - b
unfolding sub_size
sub_size-eq a b h k = omega arith

-- `x % n` for an offset `x` that is `n` at most
pub mod-eq-wrap : (x n : ℕ) → 0 < n → x ≤ n → x % n ≡ (if ltb x n then x else x - n)
mod-eq-wrap x n pos le = elim (Bool-cases (ltb x n)) [
  | inl lt ↦ rw lt (mod-eq_of_lt (ground arith))
  | inr ge ↦ rw ge (mod-eq-sub-mod (ground arith) ∙ mod-eq_of_lt (ground arith))
]
