-- ===== src/Circbuf/Ops.antt =====
-- src/streamlike/util/circbuf.c: a program of calls that do not block, on one buffer, beside a bounded
-- queue of bytes.
pub mod Refine
pub mod Roundtrip
pub mod Bounds
mod Tests
use libstreamlike.Common.{
  ℕ, ◌+◌, ◌-◌, ◌≤◌, ◌<◌, Bool, true, false, if◌then◌else◌, List, [], ◌∷◌, ◌++◌, Option, some, ◌>>=◌,
  ℤ, min, size_mod,
}
use libstreamlike.Memory.{Block, bytes, length, take, drop}
use libstreamlike.Circbuf.{Circbuf, reset, get_length, close_read, close_write}
use libstreamlike.Circbuf.Read.{read_some, dispose_some}
use libstreamlike.Circbuf.Write.{write_some}

-- A call, with the caller's block and the offset of its pointer in it
pub data Op : Type 0 where
  writes reads : (buf : Block) (base len : ℕ) → Op
  disposes : (len : ℕ) → Op
  asks_length resets closes_read closes_write : Op

-- What the caller sees of a call: a number, the bytes that a read has put into its block, a code, or
-- nothing
pub data Out : Type 0 where
  counts : ℕ → Out
  gives : List ℕ → Out
  returns : ℤ → Out
  silent : Out

unfoldable pub exec : Op → Circbuf → Option (Out × Circbuf)
unfolding reset get_length close_read close_write read_some dispose_some write_some
exec (writes buf base len) c = write_some c buf base len >>= λ r. some (counts r.count, r.cbuf)
exec (reads buf base len) c = read_some c buf base len >>= λ r.
    some (gives (bytes (λ i. r.buf.at (base + i)) r.count), r.cbuf)
exec (disposes len) c = let (n, c') = dispose_some c len in some (counts n, c')
exec asks_length c = some (counts (get_length c), c)
exec resets c = some (silent, reset c)
exec closes_read c = let (code, c') = close_read c in some (returns code, c')
exec closes_write c = let (code, c') = close_write c in some (returns code, c')

-- The calls in order
unfoldable pub exec_all : List Op → Circbuf → Option (List Out × Circbuf)
unfolding exec
exec_all [] c = some ([], c)
exec_all (o ∷ os) c = exec o c >>= λ r. exec_all os r.1 >>= λ t. some (r.0 ∷ t.0, t.1)

-- A queue of at most `cap` bytes, oldest first, with its two ends
pub record Queue : Type 0 where
  pub cap : ℕ
  pub items : List ℕ
  pub wdone : Bool
  pub rdone : Bool

-- A call on it: as many bytes are taken in as there is room for, or handed out as there are.
unfoldable pub spec : Op → Queue → Out × Queue
spec (writes buf base len) q =
    let n = min len (q.cap - length q.items) in
    (counts n, record q { items = q.items ++ bytes (λ i. buf.at (base + i)) n })
spec (reads buf base len) q =
    let n = min len (length q.items) in
    (gives (take n q.items), record q { items = drop n q.items })
spec (disposes len) q =
    let n = min len (length q.items) in (counts n, record q { items = drop n q.items })
spec asks_length q = (counts (length q.items), q)
spec resets q = (silent, record q { items = []; wdone = false; rdone = false })
spec closes_read q = (returns (if q.rdone then ℤ.negsuc 0 else ℤ.pos 0), record q { rdone = true })
spec closes_write q = (returns (if q.wdone then ℤ.negsuc 0 else ℤ.pos 0), record q { wdone = true })

unfoldable pub spec_all : List Op → Queue → List Out × Queue
unfolding spec
spec_all [] q = ([], q)
spec_all (o ∷ os) q = let (x, q') = spec o q in let (xs, q'') = spec_all os q' in (x ∷ xs, q'')

-- The caller's block holds what a call writes from it or reads into it.
abbrev pub IsFit : Op → Type 0
IsFit (writes buf base len) = (base + len ≤ buf.len) × (len < size_mod)
IsFit (reads buf base len) = (base + len ≤ buf.len) × (len < size_mod)
IsFit _ = Unit

abbrev pub AllFit : List Op → Type 0
AllFit [] = Unit
AllFit (o ∷ os) = IsFit o × AllFit os
