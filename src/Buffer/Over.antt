-- ===== src/Buffer/Over.antt =====
-- src/streamlike/buffer.c over src/streamlike/file.c: a buffered stream whose inner stream is a file's.
mod Tests
use libstreamlike.Common.{
  ℕ, ◌+◌, ◌-◌, ◌≤◌, ◌<◌, ◌≡◌, ◌∙◌, ◌⊎◌, refl, sym, ap, subst, arith, Bool, true, false, if-both,
  if◌then◌else◌, List, Option, none, some, ◌>>=◌, Ensures, ℤ, size_mod,
}
use libstreamlike.Memory.{Block}
use libstreamlike.Stream.{Streamlike}
use libstreamlike.File.{Stdio, Kept, file_stream, sl_fread_cb, sl_fseek_cb, sl_fopen, sl_fopen2}
use libstreamlike.Circbuf.Lifecycle.Release.{IsAllocator}
use libstreamlike.Buffer.{Buffer}
use libstreamlike.Buffer.Lifecycle.{Held, Outcomes, create2, threaded_fill_buffer}
use libstreamlike.Buffer.Machine.{Inner, System}
use libstreamlike.Buffer.Threads.{Choice, run}
use libstreamlike.Buffer.Threads.Source.{IsInner}
use libstreamlike.Buffer.Threads.Steps.{AllFit}
use libstreamlike.Buffer.Threads.Promise.{IsBuffering}
use libstreamlike.Buffer.Threads.Safety.{started, run-IsBuffering}

-- The callbacks behind `sl_read(inner_stream, …)` and `sl_seek(inner_stream, …)`; `none` where one is NULL
unfoldable pub inner_of : {W P K : Type 0} → Streamlike W P K → Option (Inner W)
inner_of s = s.read >>= λ r. s.seek >>= λ k. some (record { read = r; seek = k })

-- What the C library documents of `fread` and `fseek` on a file whose byte at offset `i` is `content i`,
-- and that stands at the offset `at w`: `fread` stores at most the bytes asked for and goes on by their
-- number; a seek from the start that returns 0 stands at the offset, and one that does not stays.
pub record IsReadable {F W : Type 0} (c : Stdio F W) (file : F) (content : ℕ → ℕ) (at : W → ℕ)
    : Type 0 where
  pub at_most : (w : W) (mem : Block) (there n : ℕ) → (c.fread file w mem there n).2 ≤ n
  pub len_eq : (w : W) (mem : Block) (there n : ℕ) → (c.fread file w mem there n).1.len ≡ mem.len
  pub frame :
      (w : W) (mem : Block) (there n j : ℕ)
      → (j < there) ⊎ (there + n ≤ j)
      → (c.fread file w mem there n).1.at j ≡ mem.at j
  pub stored :
      (w : W) (mem : Block) (there n i : ℕ)
      → i < (c.fread file w mem there n).2
      → (c.fread file w mem there n).1.at (there + i) ≡ content (at w + i)
  pub goes_on :
      (w : W) (mem : Block) (there n : ℕ)
      → at (c.fread file w mem there n).0 ≡ at w + (c.fread file w mem there n).2
  pub lands :
      (w : W) (offset : ℤ)
      → (c.fseek file w offset c.seek_set).1 ≡ ℤ.pos 0
      → ℤ.pos (at (c.fseek file w offset c.seek_set).0) ≡ offset
  pub stays :
      (w : W) (offset : ℤ)
      → ¬ ((c.fseek file w offset c.seek_set).1 ≡ ℤ.pos 0)
      → at (c.fseek file w offset c.seek_set).0 ≡ at w

module _ {F W : Type 0} (c : Stdio F W) (file : F) where
  unfoldable pub file_inner : Inner W
  unfolding sl_fread_cb sl_fseek_cb
  file_inner = record { read = sl_fread_cb c file; seek = sl_fseek_cb c file }

  file_inner-eq : inner_of (file_stream c file) ≡ some file_inner
  unfolding inner_of file_stream file_inner
  file_inner-eq = refl

  -- The callbacks of src/streamlike/file.c keep the contracts that the filler relies on.
  pub file_inner-IsInner :
      (content : ℕ → ℕ) (at : W → ℕ) → IsReadable c file content at → IsInner file_inner content at
  unfolding file_inner
  file_inner-IsInner content at r = record {
    at_most = r.at_most;
    len_eq = r.len_eq;
    frame = r.frame;
    stored = r.stored;
    goes_on = r.goes_on;
    lands = r.lands;
    stays = r.stays;
  }

  opened-inner :
      (ok : Bool) (kept : Kept) (s : Streamlike W Unit Unit)
      → (sl_fopen c (some file) ok kept).0 ≡ some s
      → inner_of s ≡ some file_inner
  unfolding sl_fopen sl_fopen2
  opened-inner true kept s e =
      ap (λ o. elim o [ none ↦ inner_of s | some t ↦ inner_of t ]) (sym e) ∙ file_inner-eq
  opened-inner false kept s e = cc

  -- A file that `fopen` and `malloc` let `sl_fopen` open, whose `fread` and `fseek` do what the C library
  -- documents and that stands at its start, under a stream that `sl_buffer_create2` made with an
  -- allocator that keeps to its documentation, of a size below `SIZE_MAX` and a step below `2 ^ 64`, and
  -- whose filler was started: the callbacks that the filler calls are those of the file's stream, and
  -- in any order of the threads' steps, of reads into blocks that have room and of seeks with
  -- `SL_SEEK_SET`, the buffered stream hands out the bytes of the file at the offset that it tells, and
  -- moves its offset with them.
  pub file-IsBuffering :
      (content : ℕ → ℕ) (at : W → ℕ)
      → IsReadable c file content at
      → (opened : Bool) (kept : Kept) (s : Streamlike W Unit Unit)
      → (sl_fopen c (some file) opened kept).0 ≡ some s
      → (o : Outcomes) (ok : Bool) (n step_size code : ℕ) (b b' : Buffer) (h h' : Held)
      → IsAllocator o.cbuf.alloc
      → n < size_mod - 1
      → step_size < size_mod
      → create2 o true n step_size ≡ some (some b, h)
      → threaded_fill_buffer ok code (some (some b)) h ≡ some (ℤ.pos 0, some (some b'), h')
      → (w : W) → at w ≡ 0
      → (xs : List Choice) → AllFit xs
      → (i : Inner W) × (inner_of s ≡ some i)
        × Ensures (IsBuffering content) (run i xs (started b' w))
  file-IsBuffering content at r opened kept s e o ok n step_size code b b' h h' law small step made
        began w z xs fit =
      (
        file_inner,
        opened-inner opened kept s e,
        run-IsBuffering file_inner content at (file_inner-IsInner content at r) o true ok n
            step_size code b b' h h' law small step made began w z xs fit,
      )
