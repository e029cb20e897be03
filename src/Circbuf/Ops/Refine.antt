-- ===== src/Circbuf/Ops/Refine.antt =====
-- A circular buffer is a bounded queue.
use libstreamlike.Common.{
  ℕ, ◌+◌, ◌-◌, ◌≡◌, ◌∙◌, refl, sym, ap, ap₂, true, false, if-both, if◌then◌else◌, List, [], ◌∷◌,
  ◌++◌, some, ◌>>=◌, Ensures, Ensures-bind, ℤ, min,
}
use libstreamlike.Memory.{Block, bytes, length, length-bytes, take, drop, take-append, drop-append}
use libstreamlike.Circbuf.{Circbuf, reset, close_read, close_write}
use libstreamlike.Circbuf.State.{used, contents, IsCircbuf}
use libstreamlike.Circbuf.Length.{get_length-contents, reset_lem}
use libstreamlike.Circbuf.Read.{Reading, read_some, dispose_some}
use libstreamlike.Circbuf.Read.Fifo.{IsRead, read_some-IsRead}
use libstreamlike.Circbuf.Read.Peek.{dispose_some-drop}
use libstreamlike.Circbuf.Write.{Writing, write_some}
use libstreamlike.Circbuf.Write.Fifo.{IsWritten, write_some-IsWritten}
use libstreamlike.Circbuf.Ops.{
  Op, writes, reads, disposes, asks_length, resets, closes_read, closes_write, Out, counts, gives,
  returns, silent, exec, exec_all, Queue, spec, spec_all, IsFit, AllFit,
}

-- The queue that a buffer stands for
abbrev pub queue_of : Circbuf → Queue
queue_of c = record { cap = c.size - 1; items = contents c; wdone = c.wdone; rdone = c.rdone }

-- A call did what the queue does.
abbrev pub IsStep : Op → Circbuf → Out × Circbuf → Type 0
IsStep o c (x, c') = IsCircbuf c' × (spec o (queue_of c) ≡ (x, queue_of c'))

-- What a call leaves of the queue, from the bytes and from the fields that it leaves alone
left-eq :
    (c c' : Circbuf) (items : List ℕ)
    → c'.size ≡ c.size
    → items ≡ contents c'
    → c'.wdone ≡ c.wdone
    → c'.rdone ≡ c.rdone
    → ◌≡◌ {A = Queue} (record (queue_of c) { items = items }) (queue_of c')
left-eq c c' items e i w r =
    λ j. record { cap = sym e j - 1; items = i j; wdone = sym w j; rdone = sym r j }

module _ (c : Circbuf) (s : IsCircbuf c) where
  used-length : length (contents c) ≡ used c.size c.roff c.woff
  used-length = length-bytes _ (used c.size c.roff c.woff)

  written-IsStep :
      (buf : Block) (base len : ℕ) (r : Writing)
      → IsWritten c buf base len r
      → IsStep (writes buf base len) c (counts r.count, r.cbuf)
  unfolding spec
  written-IsStep buf base len r t =
      let q : ℕ → Queue =
        λ n. record (queue_of c) { items = contents c ++ bytes (λ i. buf.at (base + i)) n } in
      let n : min len (c.size - 1 - length (contents c)) ≡ r.count =
        ap (λ k. min len (c.size - 1 - k)) used-length ∙ sym t.counted in
      (
        t.sound,
        ap (λ k. (counts k, q k)) n
            ∙ ap (λ x. (counts r.count, x))
                (left-eq c r.cbuf _ (ap (λ x. x.size) t.same) t.fifo (ap (λ x. x.wdone) t.same)
                  (ap (λ x. x.rdone) t.same)),
      )

  -- Where a list falls in two, what is taken and what is left
  parts :
      (xs ys : List ℕ) (n : ℕ)
      → xs ++ ys ≡ contents c
      → length xs ≡ n
      → (take n (contents c) ≡ xs) × (drop n (contents c) ≡ ys)
  parts xs ys n e l = rw (← e, ← l) (take-append xs ys, drop-append xs ys)

  read-IsStep :
      (buf : Block) (base len : ℕ) (r : Reading)
      → IsRead c buf base len r
      → IsStep (reads buf base len) c (gives (bytes (λ i. r.buf.at (base + i)) r.count), r.cbuf)
  unfolding spec
  read-IsStep buf base len r t =
      let n : min len (length (contents c)) ≡ r.count = ap (min len) used-length ∙ sym t.counted in
      let p =
        parts (bytes (λ i. r.buf.at (base + i)) r.count) (contents r.cbuf) r.count t.fifo
          (length-bytes _ r.count) in
      (
        t.sound,
        ap (λ k. (gives (take k (contents c)), record (queue_of c) { items = drop k (contents c) }))
              n
            ∙ ap₂ (λ x y. (gives x, y)) p.0
                (left-eq c r.cbuf _ (ap (λ x. x.size) t.same) p.1 (ap (λ x. x.wdone) t.same)
                  (ap (λ x. x.rdone) t.same)),
      )

  disposed-IsStep : (len : ℕ) → Ensures (IsStep (disposes len) c) (exec (disposes len) c)
  unfolding exec spec
  disposed-IsStep len =
      let (n, d, v, same) = dispose_some-drop c len s in
      (
        v,
        ap (λ k. (counts k, record (queue_of c) { items = drop k (contents c) })) (sym n)
            ∙ ap (λ x. (counts (dispose_some c len).0, x))
                (left-eq c (dispose_some c len).1 _ (ap (λ x. x.size) same) (sym d)
                  (ap (λ x. x.wdone) same) (ap (λ x. x.rdone) same)),
      )

  exec-IsStep : (o : Op) → IsFit o → Ensures (IsStep o c) (exec o c)
  unfolding exec spec close_read close_write reset
  exec-IsStep (writes buf base len) f =
      Ensures-bind (IsWritten c buf base len) (IsStep (writes buf base len) c) _
        (written-IsStep buf base len) (write_some c buf base len)
        (write_some-IsWritten c buf base len s f.0 f.1)
  exec-IsStep (reads buf base len) f =
      Ensures-bind (IsRead c buf base len) (IsStep (reads buf base len) c) _
        (read-IsStep buf base len) (read_some c buf base len)
        (read_some-IsRead c buf base len s f.0 f.1)
  exec-IsStep (disposes len) f = disposed-IsStep len
  exec-IsStep asks_length f =
      (s, ap (λ k. (counts k, queue_of c)) (sym (get_length-contents c s).0))
  exec-IsStep resets f = (
    (reset_lem c s).0,
    ap (λ x. (silent, record (queue_of c) { items = x; wdone = false; rdone = false }))
        (sym (reset_lem c s).1),
  )
  exec-IsStep closes_read f =
      if-both (λ (r : ℤ × Circbuf). IsStep closes_read c (returns r.0, r.1)) c.rdone
        (λ e. (
          s,
          λ j. (
            returns (if e j then ℤ.negsuc 0 else ℤ.pos 0),
            record (queue_of c) { rdone = sym e j },
          ),
        ))
        (λ e. (
          record { whole = s.whole; valid = s.valid },
          λ j.
              (returns (if e j then ℤ.negsuc 0 else ℤ.pos 0), record (queue_of c) { rdone = true }),
        ))
  exec-IsStep closes_write f =
      if-both (λ (r : ℤ × Circbuf). IsStep closes_write c (returns r.0, r.1)) c.wdone
        (λ e. (
          s,
          λ j. (
            returns (if e j then ℤ.negsuc 0 else ℤ.pos 0),
            record (queue_of c) { wdone = sym e j },
          ),
        ))
        (λ e. (
          record { whole = s.whole; valid = s.valid },
          λ j.
              (returns (if e j then ℤ.negsuc 0 else ℤ.pos 0), record (queue_of c) { wdone = true }),
        ))

-- The calls did what the queue does.
abbrev pub IsRun : List Op → Circbuf → List Out × Circbuf → Type 0
IsRun os c (xs, c') = IsCircbuf c' × (spec_all os (queue_of c) ≡ (xs, queue_of c'))

then-IsRun :
    (o : Op) (os : List Op) (c : Circbuf) (r : Out × Circbuf)
    → spec o (queue_of c) ≡ (r.0, queue_of r.1)
    → (t : List Out × Circbuf) → IsRun os r.1 t
    → IsRun (o ∷ os) c (r.0 ∷ t.0, t.1)
unfolding spec_all
then-IsRun o os c r e t (s, f) = (
  s,
  ap (λ (x : Out × Queue). let (xs, q) = spec_all os x.1 in (x.0 ∷ xs, q)) e
      ∙ ap (λ (x : List Out × Queue). (r.0 ∷ x.0, x.1)) f,
)

-- On a sound buffer, any program of calls of `circbuf_write_some`, `circbuf_read_some`,
-- `circbuf_dispose_some`, `circbuf_get_length`, `circbuf_reset`, `circbuf_close_read` and
-- `circbuf_close_write`, each on a block of the caller that has room, leaves no block, and returns,
-- call by call, what a queue of at most `size - 1` bytes does that starts with the buffer's contents: a
-- write puts as many bytes in as there is room for, a read hands out as many as there are, oldest
-- first, and so on. Its contents and flags are those of the buffer in the end, which is sound.
-- Neither writes nor reads stop at the right end of the block, as util/circbuf.h says that they do.
pub exec_all-IsRun :
    (os : List Op) (c : Circbuf) → IsCircbuf c → AllFit os → Ensures (IsRun os c) (exec_all os c)
unfolding exec_all spec_all
exec_all-IsRun [] c s f = (s, refl)
exec_all-IsRun (o ∷ os) c s f =
    Ensures-bind (IsStep o c) (IsRun (o ∷ os) c)
      (λ r. exec_all os r.1 >>= λ t. some (r.0 ∷ t.0, t.1))
      (λ r h.
        Ensures-bind (IsRun os r.1) (IsRun (o ∷ os) c) (λ t. some (r.0 ∷ t.0, t.1))
          (then-IsRun o os c r h.1) (exec_all os r.1) (exec_all-IsRun os r.1 h.0 f.1))
      (exec o c) (exec-IsStep c s o f.0)
