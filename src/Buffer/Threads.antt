-- ===== src/Buffer/Threads.antt =====
-- src/streamlike/buffer.c: the filler's thread, `fill_buffer` with `circbuf_write2` of
-- src/streamlike/util/circbuf.c in it, beside a consumer that calls `sl_buffer_read_cb`, with
-- `circbuf_read` in it, and `sl_buffer_seek_cb`. A section under `seek_lock` is one step where
-- nothing that another thread reads without the lock changes in its midst. A round of either
-- loop, `circbuf_write_some2` or `circbuf_read_some` with its signal, is one step as well: each end
-- moves its own offset alone.
pub mod Source
pub mod Inv
mod PastConsumer
mod PastFiller
mod Consume
mod Seek
mod Fill
mod Write2
mod Round
mod Produce
pub mod Steps
pub mod Promise
pub mod Safety
pub mod Stuck
mod Alone
pub mod Join
pub mod Serve
pub mod Wake
pub mod Blocking
use libstreamlike.Common.{
  zero, suc, ℕ, ◌+◌, ◌-◌, Bool, true, false, not, ltb, ◌==◌, ◌&&◌, if◌then◌else◌, add_size,
  sub_size, ℤ, eq_ℤ, add_off, Option, none, some, ◌>>=◌, List, [], ◌∷◌,
}
use libstreamlike.Memory.{Block}
use libstreamlike.Circbuf.{Circbuf, reset, close_read, close_write}
use libstreamlike.Circbuf.Read.{read_some}
use libstreamlike.Circbuf.Feed.{Writer, write_some2}
use libstreamlike.Circbuf.Threads.{no_room}
use libstreamlike.Buffer.{Buffer}
use libstreamlike.Buffer.Machine.{
  Inner, filler_cb, ConAt, FilAt, Consumer, Filler, System, flag, wake_data, wake_seek, wake_room,
  wake_eof, is_locked, idle, returned, r_head, r_ask, r_wait, r_asleep, r_round, r_finish, s_lock,
  s_close, s_asleep, s_woken, start, test, test_seek, ask, seek, serve, enter, head, wait, asleep,
  gate, round, short, asleep_eof, eof_woken, done,
}

module _ {W : Type 0} where
  abbrev pub con_to : System W → ConAt → System W
  con_to s pc = record s { con = record s.con { pc = pc } }

  abbrev pub fil_to : System W → FilAt → System W
  fil_to s pc = record s { fil = record s.fil { pc = pc } }

  -- The end of `sl_buffer_seek_cb`, behind the unlock
  abbrev pub seek_end : System W → System W
  seek_end s = record s {
    stream =
        if eq_ℤ s.stream.seek_result 0
        then record s.stream { pos = s.stream.seek_off; eof = false }
        else s.stream;
    con = record s.con { pc = idle };
  }

  module _ (inner : Inner W) where
    -- The next step of the consumer
    unfoldable pub con_step : ConAt → System W → Option (System W)
    unfolding close_read
    con_step idle s = some s
    con_step returned s = some s
    con_step r_head s = some (
        con_to s (
          if ltb s.con.got s.con.want
          then (if s.stream.cbuf.roff == s.stream.cbuf.woff then r_ask else r_wait)
          else r_finish))
    con_step r_ask s = some (con_to s (if s.stream.cbuf.wdone then r_finish else r_wait))
    con_step r_wait s = some (
        con_to s (
          if (s.stream.cbuf.roff == s.stream.cbuf.woff) && not s.stream.cbuf.wdone
          then r_asleep
          else r_round))
    con_step r_asleep s = some s
    con_step r_round s =
        read_some s.stream.cbuf s.con.buf (s.con.base + s.con.got) (sub_size s.con.want s.con.got)
        >>= λ r. some (record s {
          stream = record s.stream { cbuf = r.cbuf };
          con = record s.con { buf = r.buf; got = add_size s.con.got r.count; pc = r_head };
          fil = record s.fil { pc = wake_room s.fil.pc };
        })
    con_step r_finish s = some (record s {
      stream = record s.stream {
        eof = if ltb s.con.got s.con.want then true else s.stream.eof;
        pos = add_off s.stream.pos s.con.got;
      };
      con = record s.con { pc = returned };
    })
    con_step s_lock s =
        if s.stream.filler_started
        then some (record s {
          stream = record s.stream { seek_requested = true };
          con = record s.con { pc = s_close };
        })
        else (let r = inner.seek s.world s.stream.seek_off s.stream.seek_whence in
            some
              (seek_end (record s { stream = record s.stream { seek_result = r.1 }; world = r.0 })))
    con_step s_close s = some (record s {
      stream = record s.stream { cbuf = (close_read s.stream.cbuf).1 };
      con = record s.con { pc = if s.stream.seek_requested then s_asleep else s_woken };
      fil = record s.fil { pc = wake_eof (wake_room s.fil.pc) };
    })
    con_step s_asleep s = some s
    con_step s_woken s =
        if s.stream.seek_requested then some (con_to s s_asleep) else some (seek_end s)

    -- `circbuf_write2`, up to its loop; it leaves through the test of what it has written.
    abbrev pub write2_enter : System W → System W
    write2_enter s = record s {
      fil = record { written = 0; eof = false; pc = if s.stream.cbuf.rdone then short else head };
    }

    -- The condition of its loop
    abbrev pub write2_head : System W → System W
    write2_head s = fil_to s (
        if ltb s.fil.written s.stream.step_size && not s.stream.cbuf.rdone && not s.fil.eof
        then wait
        else if ltb s.fil.written s.stream.step_size
        then short
        else test)

    -- The section under `rlock`
    abbrev pub write2_wait : System W → System W
    write2_wait s =
        fil_to s (if no_room s.stream.cbuf && not s.stream.cbuf.rdone then asleep else gate)

    abbrev pub write2_gate : System W → System W
    write2_gate s = fil_to s (if s.stream.cbuf.rdone then head else round)

    abbrev pub write2_round : System W → Option (System W)
    write2_round s =
        write_some2 (filler_cb inner) s.stream.cbuf s.world
          (sub_size s.stream.step_size s.fil.written) (some s.fil.eof)
        >>= λ r. some (record s {
          stream = record s.stream { cbuf = r.cbuf };
          world = r.context;
          con = record s.con { pc = wake_data s.con.pc };
          fil = record { written = add_size s.fil.written r.count; eof = flag r.eof; pc = head };
        })

    -- The next step of the filler
    unfoldable pub fil_step : FilAt → System W → Option (System W)
    unfolding close_write reset
    fil_step start s =
        if is_locked s.con.pc
        then some s
        else some (record s {
          stream = record s.stream { filler_started = true };
          fil = record s.fil { pc = test };
        })
    fil_step test s = some (fil_to s (if s.stream.cbuf.rdone then test_seek else ask))
    fil_step test_seek s = some (fil_to s (if s.stream.seek_requested then ask else done))
    fil_step ask s = some (fil_to s (if s.stream.seek_requested then seek else enter))
    fil_step seek s =
        let r = inner.seek s.world s.stream.seek_off s.stream.seek_whence in
        some (record s {
          stream = record s.stream { seek_result = r.1 };
          world = r.0;
          fil = record s.fil { pc = serve };
        })
    fil_step serve s =
        if is_locked s.con.pc
        then some s
        else some (record s {
          stream = record s.stream {
            cbuf = if eq_ℤ s.stream.seek_result 0 then reset s.stream.cbuf else s.stream.cbuf;
            seek_requested = false;
          };
          con = record s.con { pc = wake_seek s.con.pc };
          fil = record s.fil { pc = enter };
        })
    fil_step enter s = some (write2_enter s)
    fil_step head s = some (write2_head s)
    fil_step wait s = some (write2_wait s)
    fil_step asleep s = some s
    fil_step gate s = some (write2_gate s)
    fil_step round s = write2_round s
    fil_step short s =
        if is_locked s.con.pc
        then some s
        else some (record s {
          stream = record s.stream { cbuf = (close_write s.stream.cbuf).1 };
          con = record s.con { pc = wake_data s.con.pc };
          fil = record s.fil { pc = if s.stream.cbuf.rdone then test else asleep_eof };
        })
    fil_step asleep_eof s = some s
    fil_step eof_woken s =
        if is_locked s.con.pc
        then some s
        else some (fil_to s (if s.stream.cbuf.rdone then test else asleep_eof))
    fil_step done s = some s

-- Who moves: a thread takes its next step, or wakes unasked; or the consumer makes a call.
pub data Choice : Type 0 where
  consumer filler con_wakes fil_wakes : Choice
  reads : (buf : Block) (base want : ℕ) → Choice
  seeks : (offset : ℤ) → Choice

abbrev pub is_free : ConAt → Bool
is_free idle = true
is_free returned = true
is_free _ = false

-- A call of `sl_buffer_read_cb` or of `sl_buffer_seek_cb` with `SL_SEEK_SET`, where the consumer is in none
abbrev pub call_read : {W : Type 0} → Block → ℕ → ℕ → System W → System W
call_read buf base want s = record s {
  con = record { buf = buf; base = base; want = want; got = 0; pc = r_head };
}

abbrev pub call_seek : {W : Type 0} → ℤ → System W → System W
call_seek offset s = record s {
  stream = record s.stream { seek_off = offset; seek_whence = ℤ.pos 0 };
  con = record s.con { pc = s_lock };
}

-- What `sl_buffer_destroy` does beside the filler before it joins it: the section under `seek_lock`
abbrev pub close_filler : {W : Type 0} → System W → System W
close_filler s = record s {
  stream = record s.stream { cbuf = (close_read s.stream.cbuf).1 };
  fil = record s.fil { pc = wake_eof (wake_room s.fil.pc) };
}

unfoldable pub step : {W : Type 0} → Inner W → Choice → System W → Option (System W)
unfolding con_step fil_step
step inner consumer s = con_step inner s.con.pc s
step inner filler s = fil_step inner s.fil.pc s
step inner con_wakes s = some (con_to s (wake_seek (wake_data s.con.pc)))
step inner fil_wakes s = some (fil_to s (wake_eof (wake_room s.fil.pc)))
step inner (reads buf base want) s =
    some (if is_free s.con.pc then call_read buf base want s else s)
step inner (seeks offset) s = some (if is_free s.con.pc then call_seek offset s else s)

-- The steps of a schedule, in order
unfoldable pub run : {W : Type 0} → Inner W → List Choice → System W → Option (System W)
unfolding step
run inner [] s = some s
run inner (x ∷ xs) s = step inner x s >>= λ s'. run inner xs s'

-- The next `n` steps of the filler
abbrev pub fill_steps : ℕ → List Choice
fill_steps zero = []
fill_steps (suc n) = filler ∷ fill_steps n

abbrev pub is_done : FilAt → Bool
is_done done = true
is_done _ = false

-- `sl_buffer_blocking_fill_buffer`, whose caller takes the place of the filler's thread: the code that it
-- has returned after the steps `xs`, if it has
unfoldable pub blocking_fill_buffer :
    {W : Type 0} → Inner W → List Choice → Option (Option (System W)) → Option (Option ℤ)
blocking_fill_buffer inner xs none = some (some (ℤ.negsuc 0))
blocking_fill_buffer inner xs (some none) = some (some (ℤ.negsuc 1))
blocking_fill_buffer inner xs (some (some s)) =
    run inner xs s >>= λ s'. some (if is_done s'.fil.pc then some (ℤ.pos 0) else none)
