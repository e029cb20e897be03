-- ===== src/Circbuf/Threads/Safety.antt =====
-- What holds of `circbuf_read` beside `circbuf_write`, in whatever order their steps are taken.
use libstreamlike.Common.{
  ℕ, ◌+◌, ◌≤◌, ◌<◌, ◌≡◌, ◌≢◌, sym, subst, arith, ◌⊎◌, true, List, [], ◌∷◌, ◌++◌, Option, none, some,
  Ensures, Ensures-bind, size_mod,
}
use mathlib.Core.List.{append-nil}
use libstreamlike.Memory.{Block, bytes}
use libstreamlike.Circbuf.{Circbuf}
use libstreamlike.Circbuf.State.{used, contents, IsValid, IsCircbuf}
use libstreamlike.Circbuf.Threads.{
  System, ReadAt, WriteAt, Choice, reader, writer, reader_wakes, writer_wakes, reader_closes,
  writer_closes, step, run,
}
use libstreamlike.Circbuf.Threads.Inv.{ReaderInv, WriterInv, Inv}
use libstreamlike.Circbuf.Threads.Fixed.{IsSame, Keeps, run-Keeps}
use libstreamlike.Circbuf.Threads.Reader.{read_step-Inv, reader_wakes-Inv, read_close-Inv}
use libstreamlike.Circbuf.Threads.Writer.{write_step-Inv, writer_wakes-Inv, write_close-Inv}

-- A step of either thread does not leave a block, and keeps the invariant.
step-Inv :
    {before : List ℕ} {s : System} (x : Choice) → Inv before s → Ensures (Inv before) (step x s)
unfolding step
step-Inv {s} reader inv = read_step-Inv inv s.con.pc inv.reads
step-Inv {s} writer inv = write_step-Inv inv s.pro.pc inv.writes
step-Inv reader_wakes inv = reader_wakes-Inv inv
step-Inv writer_wakes inv = writer_wakes-Inv inv
step-Inv {s} reader_closes inv = read_close-Inv inv s.con.pc
step-Inv {s} writer_closes inv = write_close-Inv inv s.pro.pc

run-Inv :
    {before : List ℕ} (xs : List Choice) {s : System}
    → Inv before s
    → Ensures (Inv before) (run xs s)
unfolding run
run-Inv [] inv = inv
run-Inv {before} (x ∷ xs) {s} inv =
    Ensures-bind (Inv before) (Inv before) (run xs) (λ s' i. run-Inv xs {s = s'} i) (step x s)
      (step-Inv x inv)

-- Both calls at their start: `circbuf_read(c, buf + base, want)` and `circbuf_write(c, src + from, len)`
abbrev pub both : Circbuf → Block → ℕ → ℕ → Block → ℕ → ℕ → System
both c buf base want src from len = record {
  cbuf = c;
  con = record { buf = buf; base = base; want = want; got = 0; pc = ReadAt.head };
  pro = record { src = src; from = from; len = len; put = 0; pc = WriteAt.enter };
}

-- What the two calls may be started on: a sound buffer, and blocks that hold what is asked for
pub record IsReady (c : Circbuf) (buf : Block) (base want : ℕ) (src : Block) (from len : ℕ)
    : Type 0 where
  pub sound : IsCircbuf c
  pub con_room : base + want ≤ buf.len
  pub con_small : want < size_mod
  pub pro_room : from + len ≤ src.len
  pub pro_small : len < size_mod

-- An empty buffer is not full.
not_both :
    {size roff woff : ℕ} → roff ≡ woff → used size roff woff + 1 ≡ size → ¬ IsValid size roff woff
not_both e f v = ground arith

module _ (c : Circbuf) (buf : Block) (base want : ℕ) (src : Block) (from len : ℕ) where
  both-Inv :
      IsReady c buf base want src from len → Inv (contents c) (both c buf base want src from len)
  both-Inv h = record {
    shaped = record {
      sound = h.sound;
      con_room = h.con_room;
      con_small = h.con_small;
      got_le = omega arith;
      pro_room = h.pro_room;
      pro_small = h.pro_small;
      put_le = omega arith;
    };
    reads = tt;
    writes = tt;
    fifo = sym (append-nil (contents c));
  }

  -- What holds at any moment of the two calls
  pub record IsInOrder (s : System) : Type 0 where
    pub sound : IsCircbuf s.cbuf
    pub fifo :
        bytes (λ i. s.con.buf.at (base + i)) s.con.got ++ contents s.cbuf
        ≡ contents c ++ bytes (λ i. src.at (from + i)) s.pro.put
    pub got_le : s.con.got ≤ want
    pub put_le : s.pro.put ≤ len
    pub read_done : s.con.pc ≡ ReadAt.done → (s.con.got ≡ want) ⊎ (s.cbuf.wdone ≡ true)
    pub write_done : s.pro.pc ≡ WriteAt.done → (s.pro.put ≡ len) ⊎ (s.cbuf.rdone ≡ true)
    pub awake : s.con.pc ≡ ReadAt.asleep → s.pro.pc ≢ WriteAt.asleep

  in_order :
      (s : System) → Inv (contents c) s → IsSame (both c buf base want src from len) s → IsInOrder s
  in_order s inv same = record {
    sound = inv.shaped.sound;
    fifo = rw (← same.base, ← same.src, ← same.from) inv.fifo;
    got_le = omega (arith, inv.shaped, same);
    put_le = omega (arith, inv.shaped, same);
    read_done = λ e. rw (← same.want) (subst (λ pc. ReaderInv pc s.cbuf s.con) e inv.reads);
    write_done = λ e. rw (← same.len) (subst (λ pc. WriterInv pc s.cbuf s.pro) e inv.writes);
    awake = λ e e'.
        not_both (subst (λ pc. ReaderInv pc s.cbuf s.con) e inv.reads).0
          (subst (λ pc. WriterInv pc s.cbuf s.pro) e' inv.writes).0 inv.shaped.sound.valid;
  }

  -- Started on a sound buffer and on blocks that hold what is asked for, in whatever order the two
  -- threads take their steps, wake and close their ends once they have returned: no step leaves a
  -- block, the buffer is sound after each, and the bytes read so far, followed by those queued, are
  -- those queued at the start, followed by the bytes written so far. A call counts no more bytes than
  -- it was asked for. `circbuf_read` returns with all that it wants, or once writing is closed;
  -- `circbuf_write` returns with all written, or once reading is closed. The two never sleep at once.
  pub run-IsInOrder :
      IsReady c buf base want src from len
      → (xs : List Choice) → Ensures IsInOrder (run xs (both c buf base want src from len))
  run-IsInOrder h xs =
      go (run xs (both c buf base want src from len)) (run-Inv xs (both-Inv h)) (run-Keeps xs _)
    where
      go :
          (o : Option System)
          → Ensures (Inv (contents c)) o
          → Keeps (both c buf base want src from len) o
          → Ensures IsInOrder o
      go none inv same = inv
      go (some s) inv same = in_order s inv same
