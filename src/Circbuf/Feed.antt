-- ===== src/Circbuf/Feed.antt =====
-- src/streamlike/util/circbuf.c: the producer's side without blocking, from a callback that stores
-- bytes into the buffer's block itself.
pub mod Step
mod Calls
pub mod Fifo
use libstreamlike.Common.{
  ℕ, ◌+◌, ◌%◌, Bool, true, false, leb, ltb, ◌==◌, if◌then◌else◌, add_size, sub_size, Option, some,
  none, ◌>>=◌,
}
use libstreamlike.Memory.{Block}
use libstreamlike.Circbuf.{Circbuf}
use libstreamlike.Circbuf.Write.{is_full}

-- What a call `writer(context, there, length)` leaves: the context, the block that `there` points
-- into, and the number that it returns
pub record Supply (C : Type 0) : Type 0 where
  pub context : C
  pub mem : Block
  pub written : ℕ

-- `circbuf_write_cb_t`: a context, the block and the offset in it that make up `there`, and a length
abbrev pub Writer : Type 0 → Type 0
Writer C = C → Block → ℕ → ℕ → Supply C

-- What `write_some2_` changes: the context, the block, `*woffp`, `total_written` and `*eof_reached`,
-- which is `none` where the pointer is NULL
pub record Feeding (C : Type 0) : Type 0 where
  pub context : C
  pub mem : Block
  pub woff : ℕ
  pub total : ℕ
  pub eof : Option Bool

-- `if (eof_reached) *eof_reached = 1;`
abbrev pub set_eof : Option Bool → Option Bool
set_eof none = none
set_eof (some b) = some true

module _ {C : Type 0} (writer : Writer C) (size : ℕ) where
  -- The macro `WRITE_AND_RETURN_IF_EOF_(there, length)`: what it leaves, and whether it returns.
  -- `none` if the stretch that it hands to the callback leaves the block.
  unfoldable pub write_step : ℕ → ℕ → Feeding C → Option (Feeding C × Bool)
  write_step there length s =
      if leb (there + length) s.mem.len
      then (let r = writer s.context s.mem there length in
          let s' : Feeding C = record {
            context = r.context;
            mem = r.mem;
            woff = add_size s.woff r.written % size;
            total = add_size s.total r.written;
            eof = s.eof;
          } in
          if ltb r.written length
          then some (record s' { eof = set_eof s.eof }, true)
          else some (s', false))
      else none

  -- The macro `WRITE_AND_RETURN_(there, length)`
  abbrev pub write_and_return : ℕ → ℕ → Feeding C → Option (Feeding C)
  write_and_return there length s = write_step there length s >>= λ r. some r.0

  -- `write_some2_(mem, size, writer, context, write_len, roff, &woff, eof)` from the variables at its
  -- start, where `total_written` is 0
  unfoldable pub write_some2_ : ℕ → ℕ → Feeding C → Option (Feeding C)
  write_some2_ write_len roff s =
      if is_full size roff s.woff
      then some s
      else if ltb s.woff roff
      then (let avail = sub_size (sub_size roff s.woff) 1 in
          if leb write_len avail
          then write_and_return s.woff write_len s
          else write_and_return s.woff avail s)
      else (let avail = sub_size size s.woff in
          let rest = sub_size write_len avail in
          if ltb write_len avail
          then write_and_return s.woff write_len s
          else if roff == 0
          then write_and_return s.woff (sub_size avail 1) s
          else (write_step s.woff avail s >>= λ r.
              if r.1
              then some r.0
              else if ltb rest roff
              then write_and_return 0 rest r.0
              else write_and_return 0 (sub_size roff 1) r.0))

-- What `write_some2` leaves: the buffer, the context, the number that it returns and `*eof`
pub record Feed (C : Type 0) : Type 0 where
  pub cbuf : Circbuf
  pub context : C
  pub count : ℕ
  pub eof : Option Bool

-- `roff` is read once, when it is passed on. The lock and the signal change no data.
unfoldable pub write_some2 :
    {C : Type 0} → Writer C → Circbuf → C → ℕ → Option Bool → Option (Feed C)
write_some2 writer c context len eof =
    write_some2_ writer c.size len c.roff
      (record { context = context; mem = c.mem; woff = c.woff; total = 0; eof = eof })
    >>= λ s. some (record {
      cbuf = record c { mem = s.mem; woff = s.woff };
      context = s.context;
      count = s.total;
      eof = s.eof;
    })
