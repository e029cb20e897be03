-- ===== src/Buffer/Over/Tests.antt =====
-- A buffered stream over a file of five bytes.
use libstreamlike.Common.{ℕ, ◌≡◌, refl, arith, true, List, some, Ensures, ℤ, [], ◌∷◌}
use libstreamlike.File.{Stdio, Kept, file_stream, sl_fopen, sl_fopen2}
use libstreamlike.Buffer.Lifecycle.{fresh}
use libstreamlike.Buffer.Lifecycle.Create.{all_held}
use libstreamlike.Buffer.Machine.{Inner}
use libstreamlike.Buffer.Threads.{Choice, consumer, filler, reads, run}
use libstreamlike.Buffer.Threads.Promise.{IsBuffering}
use libstreamlike.Buffer.Threads.Safety.{started}
use libstreamlike.Buffer.Over.{inner_of, IsReadable, file-IsBuffering}
use libstreamlike.Buffer.Samples.{
  ring-IsAllocator, good, cbuf, created, five, five-IsInner, ramp, steps, begins,
}

-- The C library's side of it, whose state is the offset of the one file
abbrev five_bytes : Stdio Unit ℕ
five_bytes = record {
  fread = λ f w b p n. five.read w b p n;
  fwrite = λ f w b p n. (w, 0);
  fflush = λ f w. (w, ℤ.pos 0);
  fseek = λ f w offset whence. five.seek w offset (ℤ.pos 0);
  ftello = λ f w. (w, ℤ.pos w);
  feof = λ f w. ℤ.pos 0;
  ferror = λ f w. ℤ.pos 0;
  fileno = λ f w. ℤ.pos 3;
  fstat = λ d w. (ℤ.pos 0, ℤ.pos 5);
  seek_set = ℤ.pos 0;
  seek_cur = ℤ.pos 1;
  seek_end = ℤ.pos 2;
}

five_bytes-IsReadable : IsReadable five_bytes tt (λ i. i) (λ w. w)
five_bytes-IsReadable = record {
  at_most = five-IsInner.at_most;
  len_eq = five-IsInner.len_eq;
  frame = five-IsInner.frame;
  stored = five-IsInner.stored;
  goes_on = five-IsInner.goes_on;
  lands = five-IsInner.lands;
  stays = five-IsInner.stays;
}

abbrev nothing : Kept
nothing = record { files = 0; blocks = 0 }

opened-eq : (sl_fopen five_bytes (some tt) true nothing).0 ≡ some (file_stream five_bytes tt)
unfolding sl_fopen sl_fopen2
opened-eq = refl

abbrev fetch_and_read : List Choice
fetch_and_read = steps 16 filler (reads (ramp 6) 1 3 ∷ steps 5 consumer [])

file-IsBuffering_example :
    (i : Inner ℕ) × (inner_of (file_stream five_bytes tt) ≡ some i)
    × Ensures
        (IsBuffering (λ i. i))
        (run i fetch_and_read (started (record (fresh cbuf 2) { has_filler = true }) 0))
file-IsBuffering_example =
    file-IsBuffering five_bytes tt (λ i. i) (λ w. w) five_bytes-IsReadable true nothing
      (file_stream five_bytes tt) opened-eq good true 4 2 0 (fresh cbuf 2)
      (record (fresh cbuf 2) { has_filler = true }) all_held (record all_held { filler = true })
      ring-IsAllocator (omega arith) (omega arith) created begins 0 refl fetch_and_read
      (omega arith)
