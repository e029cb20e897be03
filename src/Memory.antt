-- ===== src/Memory.antt =====
-- Blocks of bytes as `malloc` hands them out, and `memcpy` between two blocks.
mod Bytes
unfoldable pub use Bytes.*
use libstreamlike.Common.{
  ℕ, ◌+◌, ◌-◌, ◌≤◌, ◌≡◌, arith, Option, none, some, ltb, leb, ◌&&◌, if◌then◌else◌,
}

-- A block of `len` bytes. What `at` says from `len` on is no memory of the block.
pub record Block : Type 0 where
  pub len : ℕ
  pub at : ℕ → ℕ

-- `f` with `n` bytes of `g` from `s` on put at `d`
abbrev pub overlay : (ℕ → ℕ) → ℕ → (ℕ → ℕ) → ℕ → ℕ → ℕ → ℕ
overlay f d g s n i = if leb d i && ltb i (d + n) then g (s + (i - d)) else f i

-- `memcpy(dst + d, src + s, n)` between different blocks; `none` if it leaves one of them.
unfoldable pub memcpy : Block → ℕ → Block → ℕ → ℕ → Option Block
memcpy dst d src s n =
    if leb (d + n) dst.len && leb (s + n) src.len
    then some (record dst { at = overlay dst.at d src.at s n })
    else none

-- A copy that stays inside both blocks succeeds.
pub memcpy-some :
    (dst : Block) (d : ℕ) (src : Block) (s n : ℕ)
    → d + n ≤ dst.len
    → s + n ≤ src.len
    → memcpy dst d src s n ≡ some (record dst { at = overlay dst.at d src.at s n })
unfolding memcpy
memcpy-some dst d src s n h k = ground arith
