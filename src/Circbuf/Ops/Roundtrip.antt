-- ===== src/Circbuf/Ops/Roundtrip.antt =====
-- What is written to a circular buffer is what is read from it.
use libstreamlike.Common.{
  ℕ, ◌+◌, ◌≤◌, ◌<◌, ◌≡◌, ◌∙◌, refl, sym, ap, ap₂, subst, arith, [], ◌++◌, Ensures, Ensures-map,
}
use libstreamlike.Memory.{Block, bytes, length, length-bytes, bytes-split}
use libstreamlike.Circbuf.{Circbuf}
use libstreamlike.Circbuf.State.{used, contents, IsCircbuf}
use libstreamlike.Circbuf.Read.{Reading, read_some}
use libstreamlike.Circbuf.Read.Fifo.{IsRead, read_some-IsRead}
use libstreamlike.Circbuf.Write.{Writing, write_some}
use libstreamlike.Circbuf.Write.Fifo.{IsWritten, write_some-IsWritten}

module _ (c : Circbuf) (src : Block) (from : ℕ) (dst : Block) (base len : ℕ) where
  -- The read hands out all that was written, and leaves the buffer empty.
  abbrev pub IsBack : Reading → Type 0
  IsBack r =
      (r.count ≡ len)
      × (bytes (λ i. r.buf.at (base + i)) len ≡ bytes (λ i. src.at (from + i)) len)
      × (contents r.cbuf ≡ [])

  abbrev pub IsWrittenAndRead : Writing → Type 0
  IsWrittenAndRead w = (w.count ≡ len) × Ensures IsBack (read_some w.cbuf dst base len)

  read-IsBack :
      (w : Writing) (r : Reading)
      → contents w.cbuf ≡ bytes (λ i. src.at (from + i)) len
      → IsRead w.cbuf dst base len r
      → IsBack r
  read-IsBack w r e t =
      let u : used w.cbuf.size w.cbuf.roff w.cbuf.woff ≡ len =
        sym (length-bytes _ (used w.cbuf.size w.cbuf.roff w.cbuf.woff))
        ∙ ap length e
        ∙ length-bytes _ len in
      let n : r.count ≡ len = omega (arith, t.counted, u) in
      let p =
        bytes-split (λ i. r.buf.at (base + i)) (λ i. src.at (from + i))
          (λ i. src.at (from + (r.count + i))) r.count 0 len (contents r.cbuf) (omega arith)
          (λ i l. refl) (t.fifo ∙ e) in
      (
        n,
        subst (λ k. bytes (λ i. r.buf.at (base + i)) k ≡ bytes (λ i. src.at (from + i)) k) n p.0,
        p.1,
      )

  -- On a sound and empty buffer, `len` bytes that fit and lie inside the caller's block are all written by
  -- `circbuf_write_some`, and a `circbuf_read_some` of as many into a block with room then hands out the
  -- same bytes in the same order and leaves the buffer empty, wherever in the buffer the offsets stand.
  -- Neither stops at the right end of the block, as util/circbuf.h says that they do.
  pub read_some-write_some :
      IsCircbuf c
      → contents c ≡ []
      → from + len ≤ src.len
      → base + len ≤ dst.len
      → len < c.size
      → Ensures IsWrittenAndRead (write_some c src from len)
  read_some-write_some s e in_src in_dst fits =
      let z : used c.size c.roff c.woff ≡ 0 =
        sym (length-bytes _ (used c.size c.roff c.woff)) ∙ ap length e in
      Ensures-map (IsWritten c src from len) IsWrittenAndRead
        (λ w t.
          let n : w.count ≡ len = omega (arith, t.counted, z, fits) in
          (
            n,
            Ensures-map (IsRead w.cbuf dst base len) IsBack
                (λ r.
                  read-IsBack w r (sym t.fifo ∙ ap₂ ◌++◌ e (ap (bytes (λ i. src.at (from + i))) n)))
                (read_some w.cbuf dst base len)
                (read_some-IsRead w.cbuf dst base len t.sound in_dst
                  (omega (arith, s.valid, fits))),
          ))
        (write_some c src from len)
        (write_some-IsWritten c src from len s in_src (omega (arith, s.valid, fits)))
