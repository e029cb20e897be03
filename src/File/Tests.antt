-- ===== src/File/Tests.antt =====
-- A file stream over a file that keeps its offset alone.
use libstreamlike.Common.{ℤ, eq_ℤ, ◌≡◌, refl, true, false, some}
use libstreamlike.Stream.{sl_length, sl_seek, sl_seek_end}
use libstreamlike.File.{Stdio, Kept, file_stream, sl_flength_cb, sl_fseek_cb, sl_fopen, sl_fopen2}
use libstreamlike.File.Open.{IsOpened, sl_fopen-IsOpened}

-- Its world is the offset, and its seeks know the code 10 for the start alone.
abbrev plain : Stdio Unit ℤ
plain = record {
  fread = λ f w b p n. (w, b, 0);
  fwrite = λ f w b p n. (w, 0);
  fflush = λ f w. (w, ℤ.pos 0);
  fseek = λ f w offset whence. elim (eq_ℤ whence 10) [
    | true ↦ (offset, ℤ.pos 0)
    | false ↦ (w, ℤ.negsuc 0)
  ];
  ftello = λ f w. (w, w);
  feof = λ f w. ℤ.pos 0;
  ferror = λ f w. ℤ.pos 0;
  fileno = λ f w. ℤ.pos 3;
  fstat = λ d w. (ℤ.negsuc 0, ℤ.pos 0);
  seek_set = ℤ.pos 10;
  seek_cur = ℤ.pos 11;
  seek_end = ℤ.pos 12;
}

abbrev nothing : Kept
nothing = record { files = 0; blocks = 0 }

-- The length of a file that `fstat` fails on
sl_length-plain : sl_length (file_stream plain tt) (ℤ.pos 5) ≡ some (ℤ.pos 5, ℤ.negsuc 1)
unfolding sl_length file_stream sl_flength_cb
sl_length-plain = refl

sl_seek-plain :
    sl_seek (file_stream plain tt) (ℤ.pos 4) sl_seek_end (ℤ.pos 5) ≡ some (ℤ.pos 5, ℤ.negsuc 0)
unfolding sl_seek file_stream sl_fseek_cb
sl_seek-plain = refl

-- A failing `malloc` leaves the file open.
sl_fopen-leaks : (sl_fopen plain (some tt) false nothing).1 ≡ record { files = 1; blocks = 0 }
unfolding sl_fopen sl_fopen2
sl_fopen-leaks = refl

sl_fopen-IsOpened_example :
    IsOpened plain (some tt) true (ℤ.pos 0) nothing (sl_fopen plain (some tt) true nothing)
sl_fopen-IsOpened_example = sl_fopen-IsOpened plain (some tt) true (ℤ.pos 0) nothing
