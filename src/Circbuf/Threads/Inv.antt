-- ===== src/Circbuf/Threads/Inv.antt =====
-- What holds between the steps of `circbuf_read` and `circbuf_write`.
use libstreamlike.Common.{ℕ, ◌+◌, ◌-◌, ◌≤◌, ◌<◌, ◌≡◌, ◌⊎◌, true, false, List, ◌++◌, size_mod}
use libstreamlike.Memory.{bytes}
use libstreamlike.Circbuf.{Circbuf}
use libstreamlike.Circbuf.State.{used, place, contents, IsValid, IsCircbuf}
use libstreamlike.Circbuf.Threads.{System, Consumer, Producer, ReadAt, WriteAt}

-- Offset `off'` is `n` places behind `off`.
abbrev pub Ahead : ℕ → ℕ → ℕ → ℕ → Type 0
Ahead size off n off' = (off' ≡ off + n) ⊎ (off' + size ≡ off + n)

-- The bytes that the reader has in its block, and those that the writer has got rid of
abbrev pub received : Consumer → List ℕ
received c = bytes (λ i. c.buf.at (c.base + i)) c.got

abbrev pub sent : Producer → List ℕ
sent p = bytes (λ i. p.src.at (p.from + i)) p.put

-- Both calls stay inside the blocks that they are given.
pub record IsShaped (s : System) : Type 0 where
  pub sound : IsCircbuf s.cbuf
  pub con_room : s.con.base + s.con.want ≤ s.con.buf.len
  pub con_small : s.con.want < size_mod
  pub got_le : s.con.got ≤ s.con.want
  pub pro_room : s.pro.from + s.pro.len ≤ s.pro.src.len
  pub pro_small : s.pro.len < size_mod
  pub put_le : s.pro.put ≤ s.pro.len

-- The offset that the reader works with is behind `woff` at most.
pub record IsBehind (size roff woff frozen : ℕ) : Type 0 where
  pub valid : IsValid size roff frozen
  pub less : used size roff frozen ≤ used size roff woff

-- The reader has the `n` oldest bytes, and `roff'` is `n` places on.
pub record IsCopied (c : Circbuf) (con : Consumer) (roff' n : ℕ) : Type 0 where
  pub ahead : Ahead c.size c.roff n roff'
  pub inside : roff' ≤ c.size
  pub n_le : n ≤ used c.size c.roff c.woff
  pub fits : con.got + n ≤ con.want
  pub copied :
      (i : ℕ) → i < n → con.buf.at (con.base + (con.got + i)) ≡ c.mem.at (place c.size c.roff i)

-- The offset that the writer works with is one that `roff` had.
pub record IsPast (size roff woff frozen : ℕ) : Type 0 where
  pub valid : IsValid size frozen woff
  pub less : used size roff woff ≤ used size frozen woff
  pub ahead : Ahead size frozen (used size frozen woff - used size roff woff) roff

-- The writer has put `n` bytes behind the queue, and `woff'` is `n` places on.
pub record IsPut (c : Circbuf) (pro : Producer) (woff' n : ℕ) : Type 0 where
  pub ahead : woff' ≡ place c.size c.woff n
  pub free : used c.size c.roff c.woff + n < c.size
  pub fits : pro.put + n ≤ pro.len
  pub stored :
      (i : ℕ) → i < n → c.mem.at (place c.size c.woff i) ≡ pro.src.at (pro.from + (pro.put + i))

-- What the reader knows where it stands. It sleeps only on an empty buffer that is open, and it
-- returns with less than it wants only once writing is closed.
abbrev pub ReaderInv : ReadAt → Circbuf → Consumer → Type 0
ReaderInv ReadAt.asleep c con = (c.roff ≡ c.woff) × (c.wdone ≡ false)
ReaderInv (ReadAt.copy woff) c con = IsBehind c.size c.roff c.woff woff
ReaderInv (ReadAt.publish roff n) c con = IsCopied c con roff n
ReaderInv ReadAt.done c con = (con.got ≡ con.want) ⊎ (c.wdone ≡ true)
ReaderInv _ c con = Unit

-- What the writer knows where it stands. It sleeps only on a full buffer that is open, and it
-- returns with bytes left only once reading is closed.
abbrev pub WriterInv : WriteAt → Circbuf → Producer → Type 0
WriterInv WriteAt.asleep c pro = (used c.size c.roff c.woff + 1 ≡ c.size) × (c.rdone ≡ false)
WriterInv (WriteAt.copy roff) c pro = IsPast c.size c.roff c.woff roff
WriterInv (WriteAt.publish woff n) c pro = IsPut c pro woff n
WriterInv WriteAt.done c pro = (pro.put ≡ pro.len) ⊎ (c.rdone ≡ true)
WriterInv _ c pro = Unit

-- The invariant, where `before` was queued at the start
pub record Inv (before : List ℕ) (s : System) : Type 0 where
  pub shaped : IsShaped s
  pub reads : ReaderInv s.con.pc s.cbuf s.con
  pub writes : WriterInv s.pro.pc s.cbuf s.pro
  pub fifo : received s.con ++ contents s.cbuf ≡ before ++ sent s.pro
