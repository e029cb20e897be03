-- ===== src/Circbuf/Write/Fifo.antt =====
-- Writing puts bytes at the end of the queue, in order.
use libstreamlike.Common.{ℕ, ◌+◌, ◌-◌, ◌≤◌, ◌<◌, ◌≡◌, refl, sym, ◌∙◌, ◌++◌, Ensures, min, size_mod}
use libstreamlike.Memory.{Block, bytes, bytes-append}
use libstreamlike.Circbuf.{Circbuf}
use libstreamlike.Circbuf.State.{used, contents, IsCircbuf}
use libstreamlike.Circbuf.Write.{Writing, write_some}
use libstreamlike.Circbuf.Write.Plain.{write_some_-IsStored}

-- What `write_some` promises: the buffer that it leaves is sound and differs in its bytes and `woff`
-- at most, it takes what there is room for, and the bytes taken are the newest of the queue.
pub record IsWritten (c : Circbuf) (buf : Block) (base buf_len : ℕ) (r : Writing) : Type 0 where
  pub sound : IsCircbuf r.cbuf
  pub same : r.cbuf ≡ record c { mem = r.cbuf.mem; woff = r.cbuf.woff }
  pub counted : r.count ≡ min buf_len (c.size - 1 - used c.size c.roff c.woff)
  pub fifo : contents c ++ bytes (λ i. buf.at (base + i)) r.count ≡ contents r.cbuf

-- On a sound buffer, and with `buf_len` bytes in the caller's block from `base` on, `write_some` does
-- not leave a block: it returns the smaller of `buf_len` and the room left (`size - 1` less the
-- number of bytes queued), and just that many of the caller's bytes join the queue at its end, in
-- order; the buffer stays sound, and only its bytes and its `woff` change.
-- It goes on past the right end of the block, at which util/circbuf.h says that it stops.
pub write_some-IsWritten :
    (c : Circbuf) (buf : Block) (base buf_len : ℕ)
    → IsCircbuf c
    → base + buf_len ≤ buf.len
    → buf_len < size_mod
    → Ensures (IsWritten c buf base buf_len) (write_some c buf base buf_len)
unfolding write_some
write_some-IsWritten c buf base buf_len s room small =
    let (t, e, p) =
      write_some_-IsStored c.mem c.size buf base buf_len c.roff c.woff s.valid s.whole room small in
    rw e (record {
      sound = record { whole = p.len_eq ∙ s.whole; valid = p.valid };
      same = refl;
      counted = p.counted;
      fifo = bytes-append _ _ _ _ _ _ p.grown (λ i h. sym (p.kept i h)) p.added;
    })
