-- ===== src/Stream/Tests.antt =====
-- A stream with two checkpoints, and seeking to one of them.
use libstreamlike.Common.{ℤ, ◌≡◌, refl, none, some}
use libstreamlike.Stream.{Streamlike, sl_seek, sl_flush, sl_ckp_offset, sl_seek_to_ckp}

-- A stream that keeps its offset alone; checkpoint `k` stands at `k`.
abbrev offset_only : Streamlike ℤ Unit ℤ
offset_only = record {
  read = none;
  input = none;
  write = none;
  flush = none;
  seek = some (λ w offset whence. (offset, ℤ.pos 0));
  tell = some (λ w. (w, w));
  eof = none;
  error = none;
  length = none;
  seekable = none;
  ckp_count = none;
  ckp = none;
  ckp_offset = some (λ w k. (w, k));
  ckp_metadata = none;
}

sl_flush-offset_only : sl_flush offset_only (ℤ.pos 3) ≡ none
unfolding sl_flush
sl_flush-offset_only = refl

-- The checkpoint 9 stands at 9, and so does the stream past a seek to it.
sl_seek_to_ckp-offset_only :
    sl_seek_to_ckp offset_only (ℤ.pos 9) (ℤ.pos 3) ≡ some (ℤ.pos 9, ℤ.pos 0)
unfolding sl_seek_to_ckp sl_seek sl_ckp_offset
sl_seek_to_ckp-offset_only = refl
