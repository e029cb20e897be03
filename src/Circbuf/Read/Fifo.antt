-- ===== src/Circbuf/Read/Fifo.antt =====
-- Reading takes bytes off the front of the queue, in order.
use libstreamlike.Common.{ℕ, ◌+◌, ◌≤◌, ◌<◌, ◌≡◌, refl, ap, ◌⊎◌, ◌++◌, Ensures, min, size_mod}
use libstreamlike.Memory.{Block, bytes, bytes-append}
use libstreamlike.Circbuf.{Circbuf}
use libstreamlike.Circbuf.State.{used, contents, IsCircbuf}
use libstreamlike.Circbuf.Read.{Reading, read_some}
use libstreamlike.Circbuf.Read.Plain.{read_some_-IsTaken}

-- What `read_some` promises: the buffer that it leaves is sound and differs in `roff` at most, the
-- caller's block changes in the bytes counted only, and those are the oldest of the queue.
pub record IsRead (c : Circbuf) (buf : Block) (base buf_len : ℕ) (r : Reading) : Type 0 where
  pub sound : IsCircbuf r.cbuf
  pub same : r.cbuf ≡ record c { roff = r.cbuf.roff }
  pub counted : r.count ≡ min buf_len (used c.size c.roff c.woff)
  pub fifo : bytes (λ i. r.buf.at (base + i)) r.count ++ contents r.cbuf ≡ contents c
  pub frame : (j : ℕ) → (j < base) ⊎ (base + r.count ≤ j) → r.buf.at j ≡ buf.at j
  pub len_eq : r.buf.len ≡ buf.len

-- On a sound buffer, and with room for `buf_len` bytes in the caller's block, `read_some` does not
-- leave a block: it returns the smaller of `buf_len` and the number of bytes queued, takes just that
-- many off the front of the queue, in order, puts them at `base` in the caller's block and changes
-- nothing else there; the buffer stays sound and only its `roff` changes.
-- It goes on past the right end of the block, at which util/circbuf.h says that it stops.
pub read_some-IsRead :
    (c : Circbuf) (buf : Block) (base buf_len : ℕ)
    → IsCircbuf c
    → base + buf_len ≤ buf.len
    → buf_len < size_mod
    → Ensures (IsRead c buf base buf_len) (read_some c buf base buf_len)
unfolding read_some
read_some-IsRead c buf base buf_len s room small =
    let (t, e, p) =
      read_some_-IsTaken c.mem c.size buf base buf_len c.roff c.woff s.valid s.whole room small in
    rw e (record {
      sound = record { whole = s.whole; valid = p.valid };
      same = refl;
      counted = p.counted;
      fifo = bytes-append _ _ _ _ _ _ p.left p.copied (λ i h. ap c.mem.at (p.kept i h));
      frame = p.frame;
      len_eq = p.len_eq;
    })
