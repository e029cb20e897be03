-- ===== src/Wrapper.antt =====
-- src/streamlikexx.cpp: the class `Streamlike`, whose methods call the wrappers of src/streamlike.h. Its
-- field `self` is a pointer that may be NULL.
pub mod Owner
pub mod Buffers
mod Tests
use libstreamlike.Common.{ℕ, ℤ, Bool, true, false, Option, none, some, ◌>>=◌}
use libstreamlike.Memory.{Block}
use libstreamlike.Stream.{
  Seekable, Streamlike, sl_read, sl_input, sl_write, sl_flush, sl_seek, sl_tell, sl_eof, sl_error,
  sl_length, sl_seekable, sl_ckp_count, sl_ckp, sl_ckp_offset, sl_ckp_metadata,
}

-- A pointer is not NULL.
abbrev pub is_some {ℓ} : {A : Type ℓ} → Option A → Bool
is_some none = false
is_some (some a) = true

-- The methods, on the object's `self`
module _ {W P K : Type 0} (self : Option (Streamlike W P K)) where
  unfoldable pub read : Block → ℕ → ℕ → W → Option (W × Block × ℕ)
  read buffer base size w = self >>= λ s. sl_read s buffer base size w

  unfoldable pub input : ℕ → W → Option (W × P × ℕ)
  input size w = self >>= λ s. sl_input s size w

  unfoldable pub write : Block → ℕ → ℕ → W → Option (W × ℕ)
  write buffer base size w = self >>= λ s. sl_write s buffer base size w

  unfoldable pub flush : W → Option (W × ℤ)
  flush w = self >>= λ s. sl_flush s w

  unfoldable pub seek : ℤ → ℤ → W → Option (W × ℤ)
  seek offset whence w = self >>= λ s. sl_seek s offset whence w

  unfoldable pub tell : W → Option (W × ℤ)
  tell w = self >>= λ s. sl_tell s w

  unfoldable pub eof : W → Option (W × ℤ)
  eof w = self >>= λ s. sl_eof s w

  unfoldable pub error : W → Option (W × ℤ)
  error w = self >>= λ s. sl_error s w

  unfoldable pub length : W → Option (W × ℤ)
  length w = self >>= λ s. sl_length s w

  unfoldable pub seekable : W → Option (W × Seekable)
  seekable w = self >>= λ s. sl_seekable s w

  unfoldable pub ckp_count : W → Option (W × ℤ)
  ckp_count w = self >>= λ s. sl_ckp_count s w

  unfoldable pub ckp : ℤ → W → Option (W × Option K)
  ckp idx w = self >>= λ s. sl_ckp s idx w

  unfoldable pub ckp_offset : K → W → Option (W × ℤ)
  ckp_offset ckp w = self >>= λ s. sl_ckp_offset s ckp w

  unfoldable pub ckp_metadata : K → W → Option (W × P × ℕ)
  ckp_metadata ckp w = self >>= λ s. sl_ckp_metadata s ckp w

  unfoldable pub has_read : Option Bool
  has_read = self >>= λ s. some (is_some s.read)

  unfoldable pub has_input : Option Bool
  has_input = self >>= λ s. some (is_some s.input)

  unfoldable pub has_write : Option Bool
  has_write = self >>= λ s. some (is_some s.write)

  unfoldable pub has_flush : Option Bool
  has_flush = self >>= λ s. some (is_some s.flush)

  unfoldable pub has_seek : Option Bool
  has_seek = self >>= λ s. some (is_some s.seek)

  unfoldable pub has_tell : Option Bool
  has_tell = self >>= λ s. some (is_some s.tell)

  unfoldable pub has_eof : Option Bool
  has_eof = self >>= λ s. some (is_some s.eof)

  unfoldable pub has_error : Option Bool
  has_error = self >>= λ s. some (is_some s.error)

  unfoldable pub has_length : Option Bool
  has_length = self >>= λ s. some (is_some s.length)
