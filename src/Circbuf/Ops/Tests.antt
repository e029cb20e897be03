-- ===== src/Circbuf/Ops/Tests.antt =====
-- Programs of calls on a small circular buffer.
use libstreamlike.Common.{
  ℕ, ◌+◌, ◌≡◌, refl, arith, true, false, List, [], ◌∷◌, none, some, Ensures, ℤ, leb, add_size,
  sub_size, if◌then◌else◌,
}
use libstreamlike.Memory.{Block, memcpy}
use libstreamlike.Circbuf.{Circbuf, reset, get_length, close_read, close_write}
use libstreamlike.Circbuf.State.{IsCircbuf}
use libstreamlike.Circbuf.Read.{read_some_, read_some, dispose_some}
use libstreamlike.Circbuf.Write.{write_some_, write_some}
use libstreamlike.Circbuf.Lifecycle.{Outcomes, Held, init}
use libstreamlike.Circbuf.Lifecycle.Release.{IsAllocator}
use libstreamlike.Circbuf.Ops.{
  Op, writes, reads, disposes, asks_length, resets, closes_write, counts, gives, returns, silent,
  exec, exec_all, AllFit,
}
use libstreamlike.Circbuf.Ops.Refine.{IsRun, exec_all-IsRun}
use libstreamlike.Circbuf.Ops.Roundtrip.{IsWrittenAndRead, read_some-write_some}
use libstreamlike.Circbuf.Ops.Bounds.{IsBounded, exec_all-IsBounded}

-- Byte `i` of the block is `i + 10`.
abbrev ramp : ℕ → Block
ramp n = record { len = n; at = λ i. i + 10 }

-- Five bytes, of which those at 3, 4 and 0 are to be read
abbrev wrapped : Circbuf
wrapped = record { mem = ramp 5; size = 5; woff = 1; roff = 3; wdone = false; rdone = false }

wrapped-IsCircbuf : IsCircbuf wrapped
wrapped-IsCircbuf = omega arith

-- Three of the bytes are read, two are written, of which one is disposed of, and so on.
abbrev calls : List Op
calls =
    writes (ramp 8) 2 4
    ∷ reads (ramp 4) 1 3
    ∷ writes (ramp 8) 0 2
    ∷ disposes 1
    ∷ closes_write
    ∷ closes_write
    ∷ asks_length
    ∷ resets
    ∷ asks_length
    ∷ []

calls-fit : AllFit calls
calls-fit = omega arith

exec_all-calls :
    Ensures
      (λ r.
        r.0
        ≡ counts 1
          ∷ gives (13 ∷ 14 ∷ 10 ∷ [])
          ∷ counts 2
          ∷ counts 1
          ∷ returns (ℤ.pos 0)
          ∷ returns (ℤ.negsuc 0)
          ∷ counts 2
          ∷ silent
          ∷ counts 0
          ∷ [])
      (exec_all calls wrapped)
unfolding exec_all exec reset get_length close_read close_write read_some read_some_ write_some
    write_some_ dispose_some memcpy add_size sub_size
exec_all-calls = refl

exec_all-IsRun_example : Ensures (IsRun calls wrapped) (exec_all calls wrapped)
exec_all-IsRun_example = exec_all-IsRun calls wrapped wrapped-IsCircbuf calls-fit

-- Empty, with the offsets at the end of the block
abbrev drained : Circbuf
drained = record wrapped { woff = 4; roff = 4 }

drained-IsCircbuf : IsCircbuf drained
drained-IsCircbuf = omega arith

read_some-write_some_example :
    Ensures (IsWrittenAndRead drained (ramp 8) 2 (ramp 6) 1 4) (write_some drained (ramp 8) 2 4)
read_some-write_some_example =
    read_some-write_some drained (ramp 8) 2 (ramp 6) 1 4 drained-IsCircbuf refl (omega arith)
      (omega arith) (omega arith)

-- Blocks up to 100 bytes can be had.
abbrev well : Outcomes
well = record {
  struct_ok = true;
  alloc = λ n. if leb n 100 then some (ramp n) else none;
  rcond_code = 0;
  wcond_code = 0;
  rlock_code = 0;
  wlock_code = 0;
}

well-IsAllocator : IsAllocator well.alloc
well-IsAllocator n b e = ground arith

abbrev made : Circbuf
made = record { mem = ramp 5; size = 5; woff = 0; roff = 0; wdone = false; rdone = false }

abbrev all_held : Held
all_held = record {
  struct = true;
  block = true;
  rcond = true;
  wcond = true;
  rlock = true;
  wlock = true;
}

made_by_init : init well 4 ≡ (some made, all_held)
unfolding init add_size
made_by_init = refl

exec_all-IsBounded_example : Ensures (λ r. IsBounded 4 r.1) (exec_all calls made)
exec_all-IsBounded_example =
    exec_all-IsBounded well 4 made all_held well-IsAllocator (omega arith) made_by_init calls
      calls-fit
