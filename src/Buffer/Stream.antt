-- ===== src/Buffer/Stream.antt =====
-- src/streamlike/buffer.c: the stream whose callbacks `sl_buffer_create2` stores. `sl_buffer_read_cb` and
-- `sl_buffer_seek_cb`, which wait for the filler, are modelled in Threads; here they are parameters.
use libstreamlike.Common.{ℕ, ◌≡◌, refl, if◌then◌else◌, some, ℤ}
use libstreamlike.Memory.{Block}
use libstreamlike.Stream.{Streamlike, sl_read, sl_write, sl_flush, sl_seek, sl_tell}
use libstreamlike.Buffer.{
  Buffer, tell_cb, eof_cb, error_cb, length_cb, seekable_cb, input_cb, ckp_count_cb, ckp_cb,
  ckp_offset_cb, ckp_metadata_cb,
}

module _ {P K : Type 0} where
  -- The assignments to the fields of `stream`; `left` is where the callbacks that have a `result` leave it.
  unfoldable pub store_callbacks :
      (Buffer → Block → ℕ → ℕ → Buffer × Block × ℕ)
      → (Buffer → ℤ → ℤ → Buffer × ℤ)
      → P
      → Streamlike Buffer P K
      → Streamlike Buffer P K
  unfolding tell_cb eof_cb error_cb length_cb seekable_cb input_cb ckp_count_cb ckp_cb ckp_offset_cb
      ckp_metadata_cb
  store_callbacks read_cb seek_cb left stream = record stream {
    read = some read_cb;
    input = some (λ b size. (b, left, input_cb b));
    seek = some seek_cb;
    tell = some (λ b. (b, tell_cb b));
    eof = some (λ b. (b, if eof_cb b then ℤ.pos 1 else ℤ.pos 0));
    error = some (λ b. (b, error_cb b));
    length = some (λ b. (b, length_cb b));
    seekable = some (λ b. (b, seekable_cb b));
    ckp_count = some (λ b. (b, ckp_count_cb b));
    ckp = some (λ b idx. (b, ckp_cb b idx));
    ckp_offset = some (λ b ckp. (b, ckp_offset_cb b ckp));
    ckp_metadata = some (λ b ckp. (b, left, ckp_metadata_cb b ckp));
  }

  module _ (read_cb : Buffer → Block → ℕ → ℕ → Buffer × Block × ℕ)
      (seek_cb : Buffer → ℤ → ℤ → Buffer × ℤ) (left : P) where
    -- On a stream of `sl_buffer_create2`, reading, seeking and telling call the callbacks stored, and `sl_write`
    -- and `sl_flush` do what the block of the stream said before.
    pub record IsStored (old stream : Streamlike Buffer P K) (b : Buffer) : Type 0 where
      pub reads :
          (mem : Block) (there n : ℕ) → sl_read stream mem there n b ≡ some (read_cb b mem there n)
      pub seeks :
          (offset whence : ℤ) → sl_seek stream offset whence b ≡ some (seek_cb b offset whence)
      pub tells : sl_tell stream b ≡ some (b, b.pos)
      pub writes :
          (mem : Block) (there n : ℕ) → sl_write stream mem there n b ≡ sl_write old mem there n b
      pub flushes : sl_flush stream b ≡ sl_flush old b

    pub store_callbacks-IsStored :
        (old : Streamlike Buffer P K) (b : Buffer)
        → IsStored old (store_callbacks read_cb seek_cb left old) b
    unfolding store_callbacks sl_read sl_seek sl_tell sl_write sl_flush tell_cb
    store_callbacks-IsStored old b = record {
      reads = λ mem there n. refl;
      seeks = λ offset whence. refl;
      tells = refl;
      writes = λ mem there n. refl;
      flushes = refl;
    }
