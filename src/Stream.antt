-- ===== src/Stream.antt =====
-- src/streamlike.h: the record of callbacks that every stream is, and the functions that call them.
mod Tests
use libstreamlike.Common.{ℕ, ℤ, Option, none, some, ◌>>=◌}
use libstreamlike.Memory.{Block}

-- `sl_seekable_t`
pub data Seekable : Type 0 where
  not_supported supported emulated checkpoints : Seekable

-- `SL_SEEK_SET`, `SL_SEEK_CUR` and `SL_SEEK_END`
abbrev pub sl_seek_set : ℤ
sl_seek_set = ℤ.pos 0

abbrev pub sl_seek_cur : ℤ
sl_seek_cur = ℤ.pos 1

abbrev pub sl_seek_end : ℤ
sl_seek_end = ℤ.pos 2

-- `streamlike_t`. `W` is all that the callbacks see and change, `context` with it; `P` are the pointers
-- that callbacks hand out, and `K` those to checkpoints. A callback that is NULL is `none`. A `buffer`
-- is a place in a block.
pub record Streamlike (W P K : Type 0) : Type 0 where
  pub read : Option (W → Block → ℕ → ℕ → W × Block × ℕ)
  pub input : Option (W → ℕ → W × P × ℕ)
  pub write : Option (W → Block → ℕ → ℕ → W × ℕ)
  pub flush : Option (W → W × ℤ)
  pub seek : Option (W → ℤ → ℤ → W × ℤ)
  pub tell : Option (W → W × ℤ)
  pub eof : Option (W → W × ℤ)
  pub error : Option (W → W × ℤ)
  pub length : Option (W → W × ℤ)
  pub seekable : Option (W → W × Seekable)
  pub ckp_count : Option (W → W × ℤ)
  pub ckp : Option (W → ℤ → W × Option K)
  pub ckp_offset : Option (W → K → W × ℤ)
  pub ckp_metadata : Option (W → K → W × P × ℕ)

-- A call of a callback: it faults where the callback is NULL.
module _ {W P K : Type 0} (stream : Streamlike W P K) where
  unfoldable pub sl_read : Block → ℕ → ℕ → W → Option (W × Block × ℕ)
  sl_read buffer base size w = stream.read >>= λ f. some (f w buffer base size)

  unfoldable pub sl_input : ℕ → W → Option (W × P × ℕ)
  sl_input size w = stream.input >>= λ f. some (f w size)

  unfoldable pub sl_write : Block → ℕ → ℕ → W → Option (W × ℕ)
  sl_write buffer base size w = stream.write >>= λ f. some (f w buffer base size)

  unfoldable pub sl_flush : W → Option (W × ℤ)
  sl_flush w = stream.flush >>= λ f. some (f w)

  unfoldable pub sl_seek : ℤ → ℤ → W → Option (W × ℤ)
  sl_seek offset whence w = stream.seek >>= λ f. some (f w offset whence)

  unfoldable pub sl_tell : W → Option (W × ℤ)
  sl_tell w = stream.tell >>= λ f. some (f w)

  unfoldable pub sl_eof : W → Option (W × ℤ)
  sl_eof w = stream.eof >>= λ f. some (f w)

  unfoldable pub sl_error : W → Option (W × ℤ)
  sl_error w = stream.error >>= λ f. some (f w)

  unfoldable pub sl_length : W → Option (W × ℤ)
  sl_length w = stream.length >>= λ f. some (f w)

  unfoldable pub sl_seekable : W → Option (W × Seekable)
  sl_seekable w = stream.seekable >>= λ f. some (f w)

  unfoldable pub sl_ckp_count : W → Option (W × ℤ)
  sl_ckp_count w = stream.ckp_count >>= λ f. some (f w)

  unfoldable pub sl_ckp : ℤ → W → Option (W × Option K)
  sl_ckp idx w = stream.ckp >>= λ f. some (f w idx)

  unfoldable pub sl_ckp_offset : K → W → Option (W × ℤ)
  sl_ckp_offset ckp w = stream.ckp_offset >>= λ f. some (f w ckp)

  unfoldable pub sl_ckp_metadata : K → W → Option (W × P × ℕ)
  sl_ckp_metadata ckp w = stream.ckp_metadata >>= λ f. some (f w ckp)

  -- The argument `sl_ckp_offset(stream, ckp)` is computed before the call of `sl_seek`.
  unfoldable pub sl_seek_to_ckp : K → W → Option (W × ℤ)
  unfolding sl_ckp_offset sl_seek
  sl_seek_to_ckp ckp w = sl_ckp_offset ckp w >>= λ r. sl_seek r.1 sl_seek_set r.0
