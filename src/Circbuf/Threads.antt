-- ===== src/Circbuf/Threads.antt =====
-- src/streamlike/util/circbuf.c: `circbuf_read` in the consumer's thread beside `circbuf_write` in the
-- producer's, a shared access at a time. A section between a lock and its unlock is one step, since
-- what it reads is written under the same lock only. A call of `memcpy` is one step: `Inv` shows that
-- no byte is copied by one thread while the other changes it.
pub mod Inv
mod Offsets
mod Fixed
mod Others
mod Reader
mod Writer
pub mod Safety
use libstreamlike.Common.{
  ℕ, ◌+◌, Bool, true, false, not, ltb, ◌==◌, ◌&&◌, ◌||◌, if◌then◌else◌, add_size, sub_size, Option,
  some, ◌>>=◌, List, [], ◌∷◌,
}
use libstreamlike.Memory.{Block}
use libstreamlike.Circbuf.{Circbuf, close_read, close_write}
use libstreamlike.Circbuf.Read.{read_some_}
use libstreamlike.Circbuf.Write.{write_some_}

-- Where `circbuf_read` stands
pub data ReadAt : Type 0 where
  head : ReadAt  -- the condition of the outer loop, up to the first load of `woff`
  ask_done : ReadAt  -- the same condition, before the load of `wdone`
  wait : ReadAt  -- before the section under `wlock`
  asleep : ReadAt  -- in `pthread_cond_wait`
  snap : ReadAt  -- in `circbuf_read_some`, before `woff` is loaded
  copy : (woff : ℕ) → ReadAt  -- in `read_some_`
  publish : (roff n : ℕ) → ReadAt  -- before the section under `rlock`
  done : ReadAt

-- Where `circbuf_write` stands
pub data WriteAt : Type 0 where
  enter : WriteAt  -- the test of `rdone` at its start
  head : WriteAt  -- the condition of the outer loop
  wait : WriteAt  -- before the section under `rlock`
  asleep : WriteAt  -- in `pthread_cond_wait`
  gate : WriteAt  -- the test of `rdone` behind the section
  snap : WriteAt  -- in `circbuf_write_some`, before `roff` is loaded
  copy : (roff : ℕ) → WriteAt  -- in `write_some_`
  publish : (woff n : ℕ) → WriteAt  -- before the section under `wlock`
  done : WriteAt

-- `circbuf_read(cbuf, buf + base, want)`, with its local variable `read` as `got`
pub record Consumer : Type 0 where
  pub buf : Block
  pub base : ℕ
  pub want : ℕ
  pub got : ℕ
  pub pc : ReadAt

-- `circbuf_write(cbuf, src + from, len)`, with its local variable `written` as `put`
pub record Producer : Type 0 where
  pub src : Block
  pub from : ℕ
  pub len : ℕ
  pub put : ℕ
  pub pc : WriteAt

pub record System : Type 0 where
  pub cbuf : Circbuf
  pub con : Consumer
  pub pro : Producer

-- `pthread_cond_signal(&cbuf->wcond)`
abbrev pub wake_reader : ReadAt → ReadAt
wake_reader asleep = wait
wake_reader pc = pc

-- `pthread_cond_signal(&cbuf->rcond)`
abbrev pub wake_writer : WriteAt → WriteAt
wake_writer asleep = wait
wake_writer pc = pc

abbrev pub read_to : System → ReadAt → System
read_to s pc = record s { con = record s.con { pc = pc } }

abbrev pub write_to : System → WriteAt → System
write_to s pc = record s { pro = record s.pro { pc = pc } }

-- The next step of `circbuf_read`
unfoldable pub read_step : ReadAt → System → Option System
read_step head s = some (
    read_to s (
      if ltb s.con.got s.con.want
      then (if s.cbuf.roff == s.cbuf.woff then ask_done else wait)
      else done))
read_step ask_done s = some (read_to s (if s.cbuf.wdone then done else wait))
read_step wait s =
    some (read_to s (if (s.cbuf.roff == s.cbuf.woff) && not s.cbuf.wdone then asleep else snap))
read_step asleep s = some s
read_step snap s = some (read_to s (copy s.cbuf.woff))
read_step (copy woff) s =
    read_some_ s.cbuf.mem s.cbuf.size s.con.buf (s.con.base + s.con.got)
      (sub_size s.con.want s.con.got) s.cbuf.roff woff
    >>= λ t. some (record s { con = record s.con { buf = t.buf; pc = publish t.roff t.count } })
read_step (publish roff n) s = some (record {
  cbuf = record s.cbuf { roff = roff };
  con = record s.con { got = add_size s.con.got n; pc = head };
  pro = record s.pro { pc = wake_writer s.pro.pc };
})
read_step done s = some s

-- The test of the inner loop of `circbuf_write`
abbrev pub no_room : Circbuf → Bool
no_room c = add_size c.woff 1 == c.roff || (add_size c.woff 1 == c.size && c.roff == 0)

-- The next step of `circbuf_write`
unfoldable pub write_step : WriteAt → System → Option System
write_step enter s = some (write_to s (if s.cbuf.rdone then done else head))
write_step head s =
    some (write_to s (if ltb s.pro.put s.pro.len && not s.cbuf.rdone then wait else done))
write_step wait s = some (write_to s (if no_room s.cbuf && not s.cbuf.rdone then asleep else gate))
write_step asleep s = some s
write_step gate s = some (write_to s (if s.cbuf.rdone then head else snap))
write_step snap s = some (write_to s (copy s.cbuf.roff))
write_step (copy roff) s =
    write_some_ s.cbuf.mem s.cbuf.size s.pro.src (s.pro.from + s.pro.put)
      (sub_size s.pro.len s.pro.put) roff s.cbuf.woff
    >>= λ t. some (record s {
      cbuf = record s.cbuf { mem = t.mem };
      pro = record s.pro { pc = publish t.woff t.count };
    })
write_step (publish woff n) s = some (record {
  cbuf = record s.cbuf { woff = woff };
  con = record s.con { pc = wake_reader s.con.pc };
  pro = record s.pro { put = add_size s.pro.put n; pc = head };
})
write_step done s = some s

-- Who moves. A thread that has returned may close its end, and a thread may wake unasked.
pub data Choice : Type 0 where
  reader : Choice
  writer : Choice
  reader_wakes : Choice
  writer_wakes : Choice
  reader_closes : Choice
  writer_closes : Choice

-- `circbuf_close_read`, once `circbuf_read` has returned
unfoldable pub read_close : ReadAt → System → System
unfolding close_read
read_close done s =
    if s.cbuf.rdone
    then s
    else record s { cbuf = (close_read s.cbuf).1; pro = record s.pro { pc = wake_writer s.pro.pc } }
read_close pc s = s

-- `circbuf_close_write`, once `circbuf_write` has returned
unfoldable pub write_close : WriteAt → System → System
unfolding close_write
write_close done s = if s.cbuf.wdone then s else record s {
  cbuf = (close_write s.cbuf).1;
  con = record s.con { pc = wake_reader s.con.pc };
}
write_close pc s = s

unfoldable pub step : Choice → System → Option System
unfolding read_step write_step read_close write_close
step reader s = read_step s.con.pc s
step writer s = write_step s.pro.pc s
step reader_wakes s = some (read_to s (wake_reader s.con.pc))
step writer_wakes s = some (write_to s (wake_writer s.pro.pc))
step reader_closes s = some (read_close s.con.pc s)
step writer_closes s = some (write_close s.pro.pc s)

-- The steps of a schedule, in order
unfoldable pub run : List Choice → System → Option System
unfolding step
run [] s = some s
run (x ∷ xs) s = step x s >>= λ s'. run xs s'
