-- ===== src/Buffer.antt =====
-- src/streamlike/buffer.c: the state behind a buffered stream, and the callbacks that only look at it.
pub mod Lifecycle
pub mod Machine
pub mod Threads
pub mod Over
pub mod Stream
mod Samples
mod Tests
use libstreamlike.Common.{ℕ, Bool, true, false, ℤ, Option, none}
use libstreamlike.Stream.{Seekable, not_supported}
use libstreamlike.Circbuf.{Circbuf}

-- `sl_buffer_t`, less the inner stream, the lock and the condition variable. `has_filler` says whether
-- `filler` is not NULL.
pub record Buffer : Type 0 where
  pub cbuf : Circbuf
  pub has_filler : Bool
  pub filler_started : Bool
  pub pos : ℤ
  pub step_size : ℕ
  pub eof : Bool
  pub seek_requested : Bool
  pub seek_off : ℤ
  pub seek_whence : ℤ
  pub seek_result : ℤ

unfoldable pub tell_cb : Buffer → ℤ
tell_cb b = b.pos

unfoldable pub eof_cb : Buffer → Bool
eof_cb b = b.eof

unfoldable pub error_cb : Buffer → ℤ
error_cb b = ℤ.pos 0

unfoldable pub length_cb : Buffer → ℤ
length_cb b = ℤ.pos 0

unfoldable pub seekable_cb : Buffer → Seekable
seekable_cb b = not_supported

unfoldable pub input_cb : Buffer → ℕ
input_cb b = 0

unfoldable pub ckp_count_cb : Buffer → ℤ
ckp_count_cb b = ℤ.pos 0

unfoldable pub ckp_cb : {K : Type 0} → Buffer → ℤ → Option K
ckp_cb b idx = none

unfoldable pub ckp_offset_cb : {K : Type 0} → Buffer → K → ℤ
ckp_offset_cb b ckp = ℤ.pos 0

unfoldable pub ckp_metadata_cb : {K : Type 0} → Buffer → K → ℕ
ckp_metadata_cb b ckp = 0

-- `sl_buffer_close_buffer`
unfoldable pub close_buffer : Option Buffer → ℤ
close_buffer b = ℤ.pos 0
