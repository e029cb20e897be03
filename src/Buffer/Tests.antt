-- ===== src/Buffer/Tests.antt =====
-- Runs of the buffered stream, and of its creation.
use libstreamlike.Common.{
  ℕ, ◌≤◌, ◌≢◌, ◌≡◌, refl, arith, true, false, ℤ, List, [], ◌∷◌, none, some, Ensures, add_size,
  sub_size,
}
use libstreamlike.Memory.{bytes, memcpy}
use libstreamlike.Circbuf.Read.{read_some, read_some_}
use libstreamlike.Circbuf.Feed.{write_step, write_some2, write_some2_}
use libstreamlike.Buffer.{tell_cb}
use libstreamlike.Buffer.Lifecycle.{Outcomes, fresh, create2}
use libstreamlike.Buffer.Lifecycle.Create.{IsAccounted, all_held, create2-IsAccounted}
use libstreamlike.Buffer.Lifecycle.Destroy.{IsReleased, create2-IsReleased}
use libstreamlike.Buffer.Machine.{System, ConAt, FilAt}
use libstreamlike.Buffer.Threads.{
  close_filler, fill_steps, blocking_fill_buffer, step, Choice, consumer, filler, reads, seeks, run,
}
use libstreamlike.Buffer.Threads.Promise.{IsBuffering}
use libstreamlike.Buffer.Threads.Safety.{
  run-IsBuffering, close_filler-joined, seek_cb-returned, read_cb-woken,
}
use libstreamlike.Buffer.Threads.Blocking.{IsOpen, blocking_fill_buffer-waits}
use libstreamlike.Buffer.Threads.Stuck.{IsStuck, run-IsStuck}
use libstreamlike.Buffer.Samples.{
  ring-IsAllocator, good, cbuf, created, five, five-IsInner, ramp, steps, begun, begins,
}

-- There is no memory for the last condition variable.
abbrev short_of : Outcomes
short_of = record good { seek_cond = record { block_ok = false; code = 0 } }

create2-IsAccounted_example : IsAccounted short_of 4 2 (create2 short_of true 4 2)
create2-IsAccounted_example = create2-IsAccounted short_of 4 2 true ring-IsAllocator (omega arith)

create2-IsReleased_example :
    IsReleased (fresh cbuf 2) all_held true 0 (record { join = 0; lock = 16; cond = 0 })
create2-IsReleased_example =
    create2-IsReleased good true 4 2 (fresh cbuf 2) all_held true 0
      (record { join = 0; lock = 16; cond = 0 }) ring-IsAllocator (omega arith) created

-- The filler fetches two steps of two bytes, and a read takes three of them.
abbrev fetch_and_read : List Choice
fetch_and_read = steps 16 filler (reads (ramp 6) 1 3 ∷ steps 5 consumer [])

fetch_and_read-returns :
    Ensures
      (λ s.
        (s.con.pc ≡ ConAt.returned)
        × (tell_cb s.stream ≡ ℤ.pos 3)
        × (bytes s.con.buf.at 6 ≡ 10 ∷ 0 ∷ 1 ∷ 2 ∷ 14 ∷ 15 ∷ []))
      (run five fetch_and_read begun)
unfolding run tell_cb add_size sub_size write_some2 write_some2_ write_step read_some read_some_
    memcpy
fetch_and_read-returns = (refl, refl, refl)

run-IsBuffering_example : Ensures (IsBuffering (λ i. i)) (run five fetch_and_read begun)
run-IsBuffering_example =
    run-IsBuffering five (λ i. i) (λ w. w) five-IsInner good true true 4 2 0 (fresh cbuf 2)
      (record (fresh cbuf 2) { has_filler = true }) all_held (record all_held { filler = true })
      ring-IsAllocator (omega arith) (omega arith) created begins 0 refl fetch_and_read
      (omega arith)

-- The filler has just started when a seek beyond the end is made, which it serves, and which fails. It
-- then ends its thread. A seek to the start is called next.
abbrev fail_and_seek : List Choice
fail_and_seek =
    filler
    ∷ seeks (ℤ.pos 9)
    ∷ consumer
    ∷ consumer
    ∷ steps 9 filler (consumer ∷ seeks (ℤ.pos 0) ∷ [])

-- It stands where `run-IsStuck` begins.
fail_and_seek-ends :
    Ensures
      (λ s. (s.fil.pc ≡ FilAt.done) × (s.stream.filler_started ≡ true) × (s.con.pc ≡ ConAt.s_lock))
      (run five fail_and_seek begun)
unfolding run
fail_and_seek-ends = (refl, refl, refl)

-- A stream like that one
abbrev failed : System ℕ
failed = record begun {
  stream = record begun.stream {
    filler_started = true;
    cbuf = record cbuf { wdone = true; rdone = true };
    seek_result = ℤ.negsuc 0;
  };
  con = record begun.con { pc = ConAt.s_lock };
  fil = record begun.fil { pc = FilAt.done };
}

run-IsStuck_example :
    Ensures IsStuck (run five (consumer ∷ consumer ∷ filler ∷ consumer ∷ []) failed)
run-IsStuck_example = run-IsStuck five failed refl refl refl (consumer ∷ filler ∷ consumer ∷ [])

-- The filler is about to fetch its first bytes.
abbrev fetching : System ℕ
fetching = record begun {
  stream = record begun.stream { filler_started = true };
  fil = record begun.fil { pc = FilAt.round };
}

fetching-eq : run five (steps 7 filler []) begun ≡ some fetching
unfolding run add_size
fetching-eq = refl

close_filler-joined_example :
    Ensures (λ s. s.fil.pc ≡ FilAt.done) (run five (fill_steps 6) (close_filler fetching))
close_filler-joined_example =
    close_filler-joined five (λ i. i) (λ w. w) five-IsInner good true true 4 2 0 (fresh cbuf 2)
      (record (fresh cbuf 2) { has_filler = true }) all_held (record all_held { filler = true })
      ring-IsAllocator (omega arith) (omega arith) created begins 0 refl (steps 7 filler [])
      (omega arith) fetching fetching-eq refl

-- A seek to the fourth byte then sleeps.
abbrev seeking : System ℕ
seeking = record fetching {
  stream = record fetching.stream {
    seek_off = ℤ.pos 4;
    seek_requested = true;
    cbuf = record cbuf { rdone = true };
  };
  con = record fetching.con { pc = ConAt.s_asleep };
}

abbrev fetch_and_seek : List Choice
fetch_and_seek = steps 7 filler (seeks (ℤ.pos 4) ∷ consumer ∷ consumer ∷ [])

seeking-eq : run five fetch_and_seek begun ≡ some seeking
unfolding run add_size
seeking-eq = refl

seek_cb-returned_example :
    (k : ℕ) × (k ≤ 9)
    × Ensures
        (λ s. Ensures (λ t. t.con.pc ≡ ConAt.idle) (step five consumer s))
        (run five (fill_steps k) seeking)
seek_cb-returned_example =
    seek_cb-returned five (λ i. i) (λ w. w) five-IsInner good true true 4 2 0 (fresh cbuf 2)
      (record (fresh cbuf 2) { has_filler = true }) all_held (record all_held { filler = true })
      ring-IsAllocator (omega arith) (omega arith) created begins 0 refl fetch_and_seek
      (omega arith) seeking seeking-eq refl going
  where
    going : FilAt.round ≢ FilAt.done
    going e = cc

begun-IsOpen : IsOpen begun
begun-IsOpen = record {
  sound = omega arith;
  small = omega arith;
  put_le = omega arith;
  read_open = refl;
  unasked = refl;
  filling = refl;
}

-- After 40 steps the buffer of four bytes is full.
blocking_fill_buffer-waits_example :
    blocking_fill_buffer five (fill_steps 40) (some (some begun)) ≡ some none
blocking_fill_buffer-waits_example =
    blocking_fill_buffer-waits five (λ i. i) (λ w. w) five-IsInner 40 begun begun-IsOpen

-- A read that is made before the filler fetches anything sleeps.
abbrev sleeping : System ℕ
sleeping = record begun {
  stream = record begun.stream { filler_started = true };
  con = record { buf = ramp 6; base = 1; want = 3; got = 0; pc = ConAt.r_asleep };
  fil = record begun.fil { pc = FilAt.test };
}

abbrev read_early : List Choice
read_early = filler ∷ reads (ramp 6) 1 3 ∷ steps 3 consumer []

sleeping-eq : run five read_early begun ≡ some sleeping
unfolding run
sleeping-eq = refl

read_cb-woken_example :
    (k : ℕ) × (k ≤ 8) × Ensures (λ s. s.con.pc ≡ ConAt.r_wait) (run five (fill_steps k) sleeping)
read_cb-woken_example =
    read_cb-woken five (λ i. i) (λ w. w) five-IsInner good true true 4 2 0 (fresh cbuf 2)
      (record (fresh cbuf 2) { has_filler = true }) all_held (record all_held { filler = true })
      ring-IsAllocator (omega arith) (omega arith) created begins 0 refl read_early (omega arith)
      sleeping sleeping-eq refl (omega arith)
