-- ===== src/Buffer/Machine.antt =====
-- src/streamlike/buffer.c: the state of the filler's thread and of its consumer, with the places that they
-- stand at in `fill_buffer`, `circbuf_write2`, `sl_buffer_read_cb`, `circbuf_read` and
-- `sl_buffer_seek_cb`.
use libstreamlike.Common.{ℕ, Bool, true, false, ℤ, Option, none, some}
use libstreamlike.Memory.{Block}
use libstreamlike.Circbuf.Feed.{Writer}
use libstreamlike.Buffer.{Buffer}

-- The two callbacks of the inner stream that are called; neither is NULL.
pub record Inner (W : Type 0) : Type 0 where
  pub read : W → Block → ℕ → ℕ → W × Block × ℕ
  pub seek : W → ℤ → ℤ → W × ℤ

-- `filler_cb`
abbrev pub filler_cb : {W : Type 0} → Inner W → Writer W
filler_cb inner w buf base len =
    let r = inner.read w buf base len in record { context = r.0; mem = r.1; written = r.2 }

-- Where the consumer stands
pub data ConAt : Type 0 where
  idle : ConAt
  returned : ConAt  -- `sl_buffer_read_cb` has returned
  r_head : ConAt  -- the condition of the outer loop of `circbuf_read`, up to the load of `woff`
  r_ask : ConAt  -- the same condition, before the load of `wdone`
  r_wait : ConAt  -- before the section under `wlock`
  r_asleep : ConAt  -- in `pthread_cond_wait` on `wcond`
  r_round : ConAt  -- before `circbuf_read_some`
  r_finish : ConAt  -- back in `sl_buffer_read_cb`
  s_lock : ConAt  -- in `sl_buffer_seek_cb`, before `seek_lock`
  s_close : ConAt  -- with `seek_lock`, before `circbuf_close_read`
  s_asleep : ConAt  -- in `pthread_cond_wait` on `seek_cond`
  s_woken : ConAt  -- before the test of `seek_requested` is made again

-- Where the filler stands
pub data FilAt : Type 0 where
  start : FilAt  -- before `filler_started` is set
  test : FilAt  -- the condition of the outer loop
  test_seek : FilAt  -- the same condition, before the load of `seek_requested`
  ask : FilAt  -- `if (context->seek_requested)`
  seek : FilAt  -- before `sl_seek`
  serve : FilAt  -- before the section that ends the request
  enter : FilAt  -- the test of `rdone` at the start of `circbuf_write2`
  head : FilAt  -- the condition of the outer loop of `circbuf_write2`
  wait : FilAt  -- before the section under `rlock`
  asleep : FilAt  -- in `pthread_cond_wait` on `rcond`
  gate : FilAt  -- the test of `rdone` behind the section
  round : FilAt  -- before `circbuf_write_some2`
  short : FilAt  -- before the section that closes writing
  asleep_eof : FilAt  -- in `pthread_cond_wait` on `seek_cond`
  eof_woken : FilAt  -- before its condition is tested again
  done : FilAt

-- The call that the consumer is in: of `sl_buffer_read_cb(stream, buf + base, want)`, `got` is the
-- local variable `read` of `circbuf_read`.
pub record Consumer : Type 0 where
  pub buf : Block
  pub base : ℕ
  pub want : ℕ
  pub got : ℕ
  pub pc : ConAt

-- The local variables `written` and `eof` of `circbuf_write2`
pub record Filler : Type 0 where
  pub written : ℕ
  pub eof : Bool
  pub pc : FilAt

pub record System (W : Type 0) : Type 0 where
  pub stream : Buffer
  pub world : W
  pub con : Consumer
  pub fil : Filler

-- The value behind the pointer to `eof`
abbrev pub flag : Option Bool → Bool
flag none = false
flag (some b) = b

-- A signal of `wcond`
abbrev pub wake_data : ConAt → ConAt
wake_data r_asleep = r_wait
wake_data pc = pc

-- A signal of `seek_cond` from the filler
abbrev pub wake_seek : ConAt → ConAt
wake_seek s_asleep = s_woken
wake_seek pc = pc

-- A signal of `rcond`
abbrev pub wake_room : FilAt → FilAt
wake_room asleep = wait
wake_room pc = pc

-- A signal of `seek_cond` from the consumer
abbrev pub wake_eof : FilAt → FilAt
wake_eof asleep_eof = eof_woken
wake_eof pc = pc

-- The consumer holds `seek_lock` between two steps.
abbrev pub is_locked : ConAt → Bool
is_locked s_close = true
is_locked _ = false
