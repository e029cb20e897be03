-- ===== src/Circbuf/Lifecycle/Release.antt =====
-- What `circbuf_init` holds when it returns.
use libstreamlike.Common.{
  Option-cases, inl, inr, ℕ, ◌+◌, ◌≤◌, ◌<◌, ◌≡◌, arith, true, false, [], Option, none, some,
  add_size, add_size-eq, ptrdiff_max, size_mod, ◌-◌,
}
use libstreamlike.Memory.{Block}
use libstreamlike.Circbuf.{Circbuf, get_size, is_read_closed, is_write_closed}
use libstreamlike.Circbuf.State.{contents, IsCircbuf}
use libstreamlike.Circbuf.Lifecycle.{Outcomes, Held, nothing_held, init}

-- Everything that a buffer needs is held.
pub record IsHeld (h : Held) : Type 0 where
  pub struct : h.struct ≡ true
  pub block : h.block ≡ true
  pub rcond : h.rcond ≡ true
  pub wcond : h.wcond ≡ true
  pub rlock : h.rlock ≡ true
  pub wlock : h.wlock ≡ true

-- What `malloc` documents of a block of `n` bytes
abbrev pub IsAllocator : (ℕ → Option Block) → Type 0
IsAllocator alloc = (n : ℕ) (b : Block) → alloc n ≡ some b → (b.len ≡ n) × (n ≤ ptrdiff_max)

-- What `init` promises of the buffer that it makes for `n` bytes
pub record IsFresh (n : ℕ) (c : Circbuf) : Type 0 where
  pub sound : IsCircbuf c
  pub size_eq : get_size c ≡ n + 1
  pub empty : contents c ≡ []
  pub read_open : is_read_closed c ≡ false
  pub write_open : is_write_closed c ≡ false

-- What `init` returns beside what it holds
abbrev pub IsComplete : ℕ → Option Circbuf × Held → Type 0
IsComplete n (none, h) = h ≡ nothing_held
IsComplete n (some c, h) = IsFresh n c × IsHeld h

-- With an allocator that keeps to its documentation, and for `n` bytes below `SIZE_MAX`, however the
-- other calls come out: where `init` returns NULL it holds nothing, and where it returns a buffer
-- that is sound, empty, of size `n + 1` and open at both ends, and all that belongs to it is held.
pub init-IsComplete :
    (o : Outcomes) (n : ℕ) → IsAllocator o.alloc → n < size_mod - 1 → IsComplete n (init o n)
unfolding init get_size is_read_closed is_write_closed
init-IsComplete o n law small = elim (Option-cases (o.alloc (add_size n 1))) [
  | inl e ↦ rw e (ground arith)
  | inr (b, e) ↦ rw e (ground (arith, add_size-eq n 1, law (add_size n 1) b e))
]
