-- ===== src/Circbuf/Tests.antt =====
-- The operations of a circular buffer on small inputs, and instances of their theorems.
use libstreamlike.Common.{
  ℕ, ◌+◌, ◌<◌, ◌≤◌, ◌≡◌, ◌↔◌, refl, arith, true, false, List, [], ◌∷◌, ◌++◌, none, some, Ensures,
  min, leb, ltb, ◌-◌, ◌^◌, ◌&&◌, sym, if◌then◌else◌, add_size, sub_size,
}
use mathlib.Core.Option
use libstreamlike.Memory.{Block, bytes, bytes-append, memcpy, length, drop}
use libstreamlike.Circbuf.{Circbuf, reset, get_size, get_length, is_read_closed, is_write_closed}
use libstreamlike.Circbuf.State.{contents, IsCircbuf}
use libstreamlike.Circbuf.Length.{get_length-contents, reset_lem}
use libstreamlike.Circbuf.Read.{read_some_, read_some, input_some, dispose_some}
use libstreamlike.Circbuf.Read.Fifo.{IsRead, read_some-IsRead}
use libstreamlike.Circbuf.Read.Peek.{dispose_some-drop, input_some-front, input_some-stalls}
use libstreamlike.Circbuf.Write.{write_some_, write_some}
use libstreamlike.Circbuf.Write.Fifo.{IsWritten, write_some-IsWritten}
use libstreamlike.Circbuf.Feed.{Writer, write_some2, write_some2_, write_step}
use libstreamlike.Circbuf.Feed.Step.{IsWriter}
use libstreamlike.Circbuf.Feed.Fifo.{IsFedBy, write_some2-IsFedBy}
use libstreamlike.Circbuf.Lifecycle.{Outcomes, init}
use libstreamlike.Circbuf.Lifecycle.Release.{IsAllocator, IsComplete, init-IsComplete}
use libstreamlike.Circbuf.Threads.{ReadAt, Choice, reader, writer, writer_closes, run}
use libstreamlike.Circbuf.Threads.Safety.{both, IsReady, IsInOrder, run-IsInOrder}

-- Byte `i` of the block is `i + 10`.
abbrev ramp : ℕ → Block
ramp n = record { len = n; at = λ i. i + 10 }

-- Five bytes, of which those at 3, 4 and 0 are to be read
abbrev wrapped : Circbuf
wrapped = record { mem = ramp 5; size = 5; woff = 1; roff = 3; wdone = false; rdone = false }

-- The same after a read that ended at the end of the block
abbrev at_end : Circbuf
at_end = record wrapped { roff = 5 }

wrapped-IsCircbuf : IsCircbuf wrapped
wrapped-IsCircbuf = omega arith

at_end-IsCircbuf : IsCircbuf at_end
at_end-IsCircbuf = omega arith

contents-wrapped : contents wrapped ≡ 13 ∷ 14 ∷ 10 ∷ []
contents-wrapped = refl

-- A read of the bytes up to the end of the block leaves `roff` at `size`.
read_some-wrapped : Ensures (λ r. r.cbuf.roff ≡ 5) (read_some wrapped (ramp 4) 0 2)
unfolding read_some read_some_ memcpy add_size sub_size
read_some-wrapped = refl

write_some-wrapped :
    Ensures (λ r. contents r.cbuf ≡ 13 ∷ 14 ∷ 10 ∷ 12 ∷ []) (write_some wrapped (ramp 4) 2 2)
unfolding write_some write_some_ memcpy add_size sub_size
write_some-wrapped = refl

read_some-IsRead_example : Ensures (IsRead wrapped (ramp 4) 1 3) (read_some wrapped (ramp 4) 1 3)
read_some-IsRead_example =
    read_some-IsRead wrapped (ramp 4) 1 3 wrapped-IsCircbuf (omega arith) (omega arith)

write_some-IsWritten_example :
    Ensures (IsWritten wrapped (ramp 4) 1 3) (write_some wrapped (ramp 4) 1 3)
write_some-IsWritten_example =
    write_some-IsWritten wrapped (ramp 4) 1 3 wrapped-IsCircbuf (omega arith) (omega arith)

get_length-contents_example :
    (get_length wrapped ≡ length (contents wrapped)) × (get_length wrapped < get_size wrapped)
get_length-contents_example = get_length-contents wrapped wrapped-IsCircbuf

reset_lem_example :
    IsCircbuf (reset wrapped)
    × (contents (reset wrapped) ≡ [])
    × (is_read_closed (reset wrapped) ≡ false)
    × (is_write_closed (reset wrapped) ≡ false)
reset_lem_example = reset_lem wrapped wrapped-IsCircbuf

dispose_some-drop_example :
    let (n, c') = dispose_some wrapped 2 in
    (n ≡ min 2 (length (contents wrapped)))
    × (contents c' ≡ drop 2 (contents wrapped))
    × IsCircbuf c'
    × (c' ≡ record wrapped { roff = c'.roff })
unfolding dispose_some get_length add_size sub_size
dispose_some-drop_example = dispose_some-drop wrapped 2 wrapped-IsCircbuf

input_some-front_example :
    let (off, n) = input_some wrapped 7 in
    (n ≤ 7)
    × (off + n ≤ 5)
    × (bytes (λ i. wrapped.mem.at (off + i)) n ++ drop n (contents wrapped) ≡ contents wrapped)
input_some-front_example = input_some-front wrapped 7 wrapped-IsCircbuf

-- One byte is queued, and `input_some` says that there is none.
input_some-stalls_example : ((input_some at_end 7).1 ≡ 0) ↔ ◌≡◌ {A = ℕ} 5 5
input_some-stalls_example = input_some-stalls at_end 7 at_end-IsCircbuf (omega arith) (omega arith)

-- A source of the bytes 0, 1, 2, … that gives two at most in a call; the context is the next of them.
abbrev counting : Writer ℕ
counting x mem there n = record {
  context = x + min n 2;
  mem = record mem {
    at = λ j. if leb there j && ltb j (there + min n 2) then x + (j - there) else mem.at j;
  };
  written = min n 2;
}

counting-IsWriter : IsWriter counting (bytes (λ i. i))
counting-IsWriter = record {
  at_most = λ x mem there n. omega arith;
  len_eq = λ x mem there n. refl;
  frame = λ x mem there n j h. ground arith;
  gives = λ x mem there n.
      sym (bytes-append _ _ _ x (min n 2) _ refl (λ i l. refl) (λ i l. ground arith));
}

write_some2-wrapped :
    Ensures
      (λ r. (contents r.cbuf ≡ 13 ∷ 14 ∷ 10 ∷ 7 ∷ []) × (r.eof ≡ some false))
      (write_some2 counting wrapped 7 3 (some false))
unfolding write_some2 write_some2_ write_step add_size sub_size
write_some2-wrapped = (refl, refl)

write_some2-IsFedBy_example :
    Ensures
      (IsFedBy (bytes (λ i. i)) wrapped 7 3 (some false))
      (write_some2 counting wrapped 7 3 (some false))
write_some2-IsFedBy_example =
    write_some2-IsFedBy counting (bytes (λ i. i)) wrapped 7 3 (some false) counting-IsWriter
      wrapped-IsCircbuf (omega arith)

-- Blocks up to 100 bytes can be had, and the last mutex cannot.
abbrev no_wlock : Outcomes
no_wlock = record {
  struct_ok = true;
  alloc = λ n. if leb n 100 then some (ramp n) else none;
  rcond_code = 0;
  wcond_code = 0;
  rlock_code = 0;
  wlock_code = 12;
}

no_wlock-IsAllocator : IsAllocator no_wlock.alloc
no_wlock-IsAllocator n b e = ground arith

init-IsComplete_example : IsComplete 8 (init no_wlock 8)
init-IsComplete_example = init-IsComplete no_wlock 8 no_wlock-IsAllocator (omega arith)

-- At `SIZE_MAX` the size wraps: what `init` makes has no room for a byte, not even for one less than
-- its size.
init_wraps :
    Option.map (λ (c : Circbuf). c.size) (init (record no_wlock { wlock_code = 0 }) (2 ^ 64 - 1)).0
    ≡ some 0
unfolding init add_size
init_wraps = refl

abbrev empty : Circbuf
empty = record wrapped { woff = 0; roff = 0 }

empty-IsReady : IsReady empty (ramp 4) 0 3 (ramp 9) 2 6
empty-IsReady = omega arith

-- The reader loads `woff` on an empty buffer, the writer writes six bytes but for want of room, and so on
abbrev early : List Choice
early = reader ∷ writer ∷ writer ∷ writer ∷ writer ∷ writer ∷ writer ∷ writer ∷ []

run-IsInOrder_example :
    Ensures
      (IsInOrder empty (ramp 4) 0 3 (ramp 9) 2 6)
      (run early (both empty (ramp 4) 0 3 (ramp 9) 2 6))
run-IsInOrder_example = run-IsInOrder empty (ramp 4) 0 3 (ramp 9) 2 6 empty-IsReady early

-- The reader finds nothing to read; before it looks whether writing is closed, the writer writes two
-- bytes and closes. The reader then returns with nothing, and the two bytes are queued.
short_read :
    Ensures
      (λ s. (s.con.pc ≡ ReadAt.done) × (s.con.got ≡ 0) × (contents s.cbuf ≡ 12 ∷ 13 ∷ []))
      (run (early ++ writer ∷ writer_closes ∷ reader ∷ []) (both empty (ramp 4) 0 3 (ramp 9) 2 2))
unfolding run write_some_ memcpy add_size sub_size
short_read = (refl, refl, refl)
