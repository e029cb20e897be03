-- ===== src/Circbuf/Threads/Others.antt =====
-- What one thread knows survives what the other does.
use libstreamlike.Common.{ℕ, ◌+◌, ◌≤◌, ◌<◌, ◌≡◌, ◌∙◌, sym, arith, inl, inr, Bool, true}
use libstreamlike.Memory.{Block}
use libstreamlike.Circbuf.{Circbuf}
use libstreamlike.Circbuf.State.{used, place, IsCircbuf}
use libstreamlike.Circbuf.Threads.{Consumer, Producer, ReadAt, WriteAt, wake_reader, wake_writer}
use libstreamlike.Circbuf.Threads.Inv.{Ahead, ReaderInv, WriterInv}
use libstreamlike.Circbuf.Threads.Offsets.{used-ahead, ahead-IsPast, used-place}

-- The reader moves `roff` on, which the writer's thread may see at any time.
pub roff-WriterInv :
    (c : Circbuf) (pro : Producer) (roff n : ℕ) (to : WriteAt)
    → IsCircbuf c
    → Ahead c.size c.roff n roff
    → roff ≤ c.size
    → n ≤ used c.size c.roff c.woff
    → (pc : WriteAt) → WriterInv pc c pro
    → WriterInv (wake_writer pc) (record c { roff = roff }) (record pro { pc = to })
roff-WriterInv c pro roff n to s a inside n_le WriteAt.asleep h = tt
roff-WriterInv c pro roff n to s a inside n_le (WriteAt.copy r) h =
    ahead-IsPast c.size c.roff c.woff s.valid n roff a inside n_le r h
roff-WriterInv c pro roff n to s a inside n_le (WriteAt.publish w m) h = record {
  ahead = h.ahead;
  free = omega (arith, used-ahead c.size c.roff c.woff s.valid n roff a inside n_le, h.free);
  fits = h.fits;
  stored = h.stored;
}
roff-WriterInv c pro roff n to s a inside n_le WriteAt.done h = h
roff-WriterInv c pro roff n to s a inside n_le _ h = tt

-- The reader closes its end and signals the writer.
pub rdone-WriterInv :
    (c : Circbuf) (pro : Producer) (b : Bool) (to : WriteAt)
    → (c.rdone ≡ true → b ≡ true)
    → (pc : WriteAt) → WriterInv pc c pro
    → WriterInv (wake_writer pc) (record c { rdone = b }) (record pro { pc = to })
rdone-WriterInv c pro b to k WriteAt.asleep h = tt
rdone-WriterInv c pro b to k (WriteAt.copy r) h = h
rdone-WriterInv c pro b to k (WriteAt.publish w m) h = record {
  ahead = h.ahead;
  free = h.free;
  fits = h.fits;
  stored = h.stored;
}
rdone-WriterInv c pro b to k WriteAt.done (inl e) = inl e
rdone-WriterInv c pro b to k WriteAt.done (inr e) = inr (k e)
rdone-WriterInv c pro b to k _ h = tt

-- The writer closes its end and signals the reader.
pub wdone-ReaderInv :
    (c : Circbuf) (con : Consumer) (b : Bool) (to : ReadAt)
    → (c.wdone ≡ true → b ≡ true)
    → (pc : ReadAt) → ReaderInv pc c con
    → ReaderInv (wake_reader pc) (record c { wdone = b }) (record con { pc = to })
wdone-ReaderInv c con b to k ReadAt.asleep h = tt
wdone-ReaderInv c con b to k (ReadAt.copy w) h = h
wdone-ReaderInv c con b to k (ReadAt.publish r n) h = record {
  ahead = h.ahead;
  inside = h.inside;
  n_le = h.n_le;
  fits = h.fits;
  copied = h.copied;
}
wdone-ReaderInv c con b to k ReadAt.done (inl e) = inl e
wdone-ReaderInv c con b to k ReadAt.done (inr e) = inr (k e)
wdone-ReaderInv c con b to k _ h = tt

-- The writer moves `woff` on and signals the reader.
pub woff-ReaderInv :
    (c : Circbuf) (con : Consumer) (n : ℕ) (to : ReadAt)
    → IsCircbuf c
    → used c.size c.roff c.woff + n < c.size
    → (pc : ReadAt) → ReaderInv pc c con
    → ReaderInv
        (wake_reader pc)
        (record c { woff = place c.size c.woff n })
        (record con { pc = to })
woff-ReaderInv c con n to s free ReadAt.asleep h = tt
woff-ReaderInv c con n to s free (ReadAt.copy w) h = record {
  valid = h.valid;
  less = omega (arith, h.less, used-place c.size c.roff c.woff s.valid n free);
}
woff-ReaderInv c con n to s free (ReadAt.publish r m) h = record {
  ahead = h.ahead;
  inside = h.inside;
  n_le = omega (arith, h.n_le, used-place c.size c.roff c.woff s.valid n free);
  fits = h.fits;
  copied = h.copied;
}
woff-ReaderInv c con n to s free ReadAt.done h = h
woff-ReaderInv c con n to s free _ h = tt

-- The writer stores bytes where nothing is queued.
pub mem-ReaderInv :
    (c : Circbuf) (con : Consumer) (mem : Block)
    → ((i : ℕ)
        → i < used c.size c.roff c.woff
        → mem.at (place c.size c.roff i) ≡ c.mem.at (place c.size c.roff i))
    → (pc : ReadAt) → ReaderInv pc c con
    → ReaderInv pc (record c { mem = mem }) con
mem-ReaderInv c con mem kept ReadAt.asleep h = h
mem-ReaderInv c con mem kept (ReadAt.copy w) h = h
mem-ReaderInv c con mem kept (ReadAt.publish r m) h = record {
  ahead = h.ahead;
  inside = h.inside;
  n_le = h.n_le;
  fits = h.fits;
  copied = λ i l. h.copied i l ∙ sym (kept i (omega (arith, h.n_le)));
}
mem-ReaderInv c con mem kept ReadAt.done h = h
mem-ReaderInv c con mem kept _ h = tt

-- What the reader knows does not depend on its own flag, nor what the writer knows on its own.
pub rdone-ReaderInv :
    (c : Circbuf) (con : Consumer) (b : Bool) (pc : ReadAt)
    → ReaderInv pc c con
    → ReaderInv pc (record c { rdone = b }) con
rdone-ReaderInv c con b ReadAt.asleep h = h
rdone-ReaderInv c con b (ReadAt.copy w) h = h
rdone-ReaderInv c con b (ReadAt.publish r n) h = record {
  ahead = h.ahead;
  inside = h.inside;
  n_le = h.n_le;
  fits = h.fits;
  copied = h.copied;
}
rdone-ReaderInv c con b ReadAt.done h = h
rdone-ReaderInv c con b _ h = tt

pub wdone-WriterInv :
    (c : Circbuf) (pro : Producer) (b : Bool) (pc : WriteAt)
    → WriterInv pc c pro
    → WriterInv pc (record c { wdone = b }) pro
wdone-WriterInv c pro b WriteAt.asleep h = h
wdone-WriterInv c pro b (WriteAt.copy r) h = h
wdone-WriterInv c pro b (WriteAt.publish w m) h = record {
  ahead = h.ahead;
  free = h.free;
  fits = h.fits;
  stored = h.stored;
}
wdone-WriterInv c pro b WriteAt.done h = h
wdone-WriterInv c pro b _ h = tt
