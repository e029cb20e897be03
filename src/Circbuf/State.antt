-- ===== src/Circbuf/State.antt =====
-- What the offsets of a buffer stand for: the positions that hold data, the queue of bytes in them,
-- and the invariant that every operation keeps.
use libstreamlike.Common.{ℕ, ◌+◌, ◌-◌, ◌≤◌, ◌<◌, ◌≡◌, leb, ltb, if◌then◌else◌, List, ptrdiff_max}
use libstreamlike.Memory.{bytes}
use libstreamlike.Circbuf.{Circbuf}

-- The number of bytes between the offsets. `roff` may be `size`, which stands for 0.
abbrev pub used : ℕ → ℕ → ℕ → ℕ
used size roff woff = if leb roff woff then woff - roff else size - roff + woff

-- Where the byte stands that is `i` places behind offset `off`
abbrev pub place : ℕ → ℕ → ℕ → ℕ
place size off i = if ltb (off + i) size then off + i else off + i - size

-- The bytes written and not yet read, oldest first
abbrev pub queue : (ℕ → ℕ) → ℕ → ℕ → ℕ → List ℕ
queue at size roff woff = bytes (λ i. at (place size roff i)) (used size roff woff)

abbrev pub contents : Circbuf → List ℕ
contents c = queue c.mem.at c.size c.roff c.woff

-- The block has `size` bytes, two at least; `woff` is an index of it, and `roff` is one or `size`.
pub record IsValid (size roff woff : ℕ) : Type 0 where
  pub two : 2 ≤ size
  pub small : size ≤ ptrdiff_max
  pub woff_lt : woff < size
  pub roff_le : roff ≤ size

pub record IsCircbuf (c : Circbuf) : Type 0 where
  pub whole : c.mem.len ≡ c.size
  pub valid : IsValid c.size c.roff c.woff
