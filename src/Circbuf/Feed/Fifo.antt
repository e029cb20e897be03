-- ===== src/Circbuf/Feed/Fifo.antt =====
-- What `write_some2` puts at the end of the queue, and when it reports a short callback.
use libstreamlike.Common.{
  ℕ, ◌+◌, ◌-◌, ◌≤◌, ◌<◌, ◌≡◌, ◌≢◌, ◌∙◌, refl, sym, arith, Bool, false, Bool-cases, inl, inr, List,
  ◌++◌, Option, some, ltb, leb, ◌==◌, ◌&&◌, ◌||◌, if◌then◌else◌, ◌>>=◌, min, sub_size, add_size-eq,
  sub_size-eq, size_mod, Ensures,
}
use libstreamlike.Memory.{bytes-append, length, length-bytes}
use libstreamlike.Circbuf.{Circbuf}
use libstreamlike.Circbuf.State.{used, contents, IsValid, IsCircbuf}
use libstreamlike.Circbuf.Feed.{
  Writer, Feeding, Feed, set_eof, write_step, write_and_return, write_some2_, write_some2,
}
use libstreamlike.Circbuf.Feed.Step.{IsWriter, fresh}
use libstreamlike.Circbuf.Feed.Calls.{wanted, Supplies, feed-once, feed-twice, full-IsSupplied}

module _ {C : Type 0} (writer : Writer C) (given : C → List ℕ) (w : IsWriter writer given)
    (size roff write_len : ℕ) (s0 : Feeding C) (v : IsValid size roff s0.woff)
    (whole0 : s0.mem.len ≡ size) (start : s0.total ≡ 0) (small : write_len < size_mod) where
  once :
      (n : ℕ)
      → n ≡ wanted writer given w size roff write_len s0
      → s0.woff + n ≤ size
      → Supplies writer given w size roff write_len s0 (write_and_return writer size s0.woff n s0)
  once = feed-once writer given w size roff write_len s0 v whole0 start small

  abbrev Out : Option (Feeding C) → Type 0
  Out = Supplies writer given w size roff write_len s0

  feed_before :
      s0.woff < roff
      → s0.woff + 1 ≢ roff
      → Out (
          let avail = sub_size (sub_size roff s0.woff) 1 in
          if leb write_len avail
          then write_and_return writer size s0.woff write_len s0
          else write_and_return writer size s0.woff avail s0)
  feed_before lt ne =
      rw
        (
          sub_size-eq roff s0.woff (ground arith) (ground arith),
          sub_size-eq (roff - s0.woff) 1 (ground arith) (ground arith),
        )
        (elim (Bool-cases (leb write_len (roff - s0.woff - 1))) [
          | inl a ↦ rw a (once write_len (ground arith) (ground arith))
          | inr a ↦ rw a (once (roff - s0.woff - 1) (ground arith) (ground arith))
        ])

  twice :
      (n m : ℕ)
      → n + m ≡ wanted writer given w size roff write_len s0
      → s0.woff + n ≡ size
      → m < s0.woff
      → Out (
          write_step writer size s0.woff n s0 >>= λ r.
          if r.1 then some r.0 else write_and_return writer size 0 m r.0)
  twice = feed-twice writer given w size roff write_len s0 v whole0 start small

  feed_behind :
      roff ≤ s0.woff
      → ((s0.woff == size - 1 && roff == 0) ≡ false)
      → Out (
          let avail = sub_size size s0.woff in
          let rest = sub_size write_len avail in
          if ltb write_len avail
          then write_and_return writer size s0.woff write_len s0
          else if roff == 0
          then write_and_return writer size s0.woff (sub_size avail 1) s0
          else (write_step writer size s0.woff avail s0 >>= λ r.
              if r.1
              then some r.0
              else if ltb rest roff
              then write_and_return writer size 0 rest r.0
              else write_and_return writer size 0 (sub_size roff 1) r.0))
  feed_behind behind ne =
      rw (sub_size-eq size s0.woff (ground arith) (ground arith))
        (elim (Bool-cases (ltb write_len (size - s0.woff))) [
          | inl a ↦ rw a (once write_len (ground arith) (ground arith))
          | inr a ↦ rw a (elim (Bool-cases (roff == 0)) [
            | inl z ↦
                rw (z, sub_size-eq (size - s0.woff) 1 (ground arith) (ground arith))
                  (once (size - s0.woff - 1) (ground arith) (ground arith))
            | inr nz ↦
                rw
                  (
                    nz,
                    sub_size-eq write_len (size - s0.woff) (ground arith) (ground arith),
                    sub_size-eq roff 1 (ground arith) (ground arith),
                  )
                  (elim (Bool-cases (ltb (write_len - (size - s0.woff)) roff)) [
                    | inl b ↦ rw b (
                        twice (size - s0.woff) (write_len - (size - s0.woff)) (ground arith)
                          (ground arith) (ground arith))
                    | inr b ↦ rw b (
                        twice (size - s0.woff) (roff - 1) (ground arith) (ground arith)
                          (ground arith))
                  ])
          ])
        ])

  write_some2_-IsSupplied : Out (write_some2_ writer size write_len roff s0)
  unfolding write_some2_
  write_some2_-IsSupplied =
      rw (add_size-eq s0.woff 1 (omega arith), sub_size-eq size 1 (omega arith) (omega arith))
        (elim (Bool-cases (s0.woff + 1 == roff || (s0.woff == size - 1 && roff == 0))) [
          | inl full ↦ rw full (
            s0,
            refl,
            full-IsSupplied writer given w size roff write_len s0 v whole0 start small
                (ground arith),
          )
          | inr open_ ↦ rw open_ (elim (Bool-cases (ltb s0.woff roff)) [
            | inl lt ↦ rw lt (feed_before (ground arith) (ground arith))
            | inr ge ↦ rw ge (feed_behind (ground arith) (ground arith))
          ])
        ])

-- What `write_some2` promises: the buffer that it leaves is sound and differs in its bytes and `woff`
-- at most, the bytes that the callback gave during the call are those that joined the queue, and
-- `*eof` tells whether the callback fell short of what was asked for and fits.
pub record IsFedBy {C : Type 0} (given : C → List ℕ) (c : Circbuf) (context : C) (len : ℕ)
    (eof : Option Bool) (r : Feed C) : Type 0 where
  pub sound : IsCircbuf r.cbuf
  pub same : r.cbuf ≡ record c { mem = r.cbuf.mem; woff = r.cbuf.woff }
  pub fifo :
      (new : List ℕ) × (given r.context ≡ given context ++ new)
      × (contents r.cbuf ≡ contents c ++ new)
      × (length new ≡ r.count)
  pub at_most : r.count ≤ min len (c.size - 1 - used c.size c.roff c.woff)
  pub short : r.count < min len (c.size - 1 - used c.size c.roff c.woff) → r.eof ≡ set_eof eof
  pub whole : r.count ≡ min len (c.size - 1 - used c.size c.roff c.woff) → r.eof ≡ eof

-- On a sound buffer, with a callback that stores at most the bytes asked for where it is told to,
-- `write_some2` hands it stretches inside the block only. The bytes that it gives, and no others,
-- join the queue at its end, in order; their number is returned, and is at most the smaller of `len`
-- and the room left. `*eof` is set if it is less, and left alone if not. The buffer stays sound, and
-- only its bytes and its `woff` change.
-- It goes on past the right end of the block, at which util/circbuf.h says that it stops.
pub write_some2-IsFedBy :
    {C : Type 0} (writer : Writer C) (given : C → List ℕ) (c : Circbuf) (context : C) (len : ℕ)
    (eof : Option Bool)
    → IsWriter writer given
    → IsCircbuf c
    → len < size_mod
    → Ensures (IsFedBy given c context len eof) (write_some2 writer c context len eof)
unfolding write_some2
write_some2-IsFedBy {C} writer given c context len eof w s small =
    let (t, e, p) =
      write_some2_-IsSupplied writer given w c.size c.roff len s0 s.valid s.whole refl small in
    rw e (record {
      sound = record { whole = p.fed.len_eq ∙ s.whole; valid = p.fed.valid };
      same = refl;
      fifo = (
        fresh given c.size c.roff s0 t t.total,
        p.fed.gives,
        sym (bytes-append _ _ _ _ _ _ p.fed.grown (λ i h. sym (p.fed.kept i h)) (λ i h. refl)),
        length-bytes _ _,
      );
      at_most = p.at_most;
      short = p.short;
      whole = p.whole;
    })
  where
    s0 : Feeding C
    s0 = record { context = context; mem = c.mem; woff = c.woff; total = 0; eof = eof }
