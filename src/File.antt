-- ===== src/File.antt =====
-- src/streamlike/file.c: a stream over a `FILE` of the C library, which is a parameter.
pub mod Open
mod Tests
use libstreamlike.Common.{ℕ, ◌+◌, ◌-◌, ℤ, ltb_ℤ, eq_ℤ, Bool, if◌then◌else◌, Option, none, some}
use libstreamlike.Memory.{Block}
use libstreamlike.Stream.{Streamlike, Seekable, supported}

-- What the code uses of `stdio.h` and `sys/stat.h` on an open file `F`, in a world `W`. `fstat` is given
-- a descriptor, and returns its code and `st_size`.
pub record Stdio (F W : Type 0) : Type 0 where
  pub fread : F → W → Block → ℕ → ℕ → W × Block × ℕ
  pub fwrite : F → W → Block → ℕ → ℕ → W × ℕ
  pub fflush : F → W → W × ℤ
  pub fseek : F → W → ℤ → ℤ → W × ℤ
  pub ftello : F → W → W × ℤ
  pub feof : F → W → ℤ
  pub ferror : F → W → ℤ
  pub fileno : F → W → ℤ
  pub fstat : ℤ → W → ℤ × ℤ
  pub seek_set : ℤ
  pub seek_cur : ℤ
  pub seek_end : ℤ

module _ {F W : Type 0} (c : Stdio F W) (file : F) where
  unfoldable pub sl_fread_cb : W → Block → ℕ → ℕ → W × Block × ℕ
  sl_fread_cb w buffer base size = c.fread file w buffer base size

  unfoldable pub sl_fwrite_cb : W → Block → ℕ → ℕ → W × ℕ
  sl_fwrite_cb w buffer base size = c.fwrite file w buffer base size

  unfoldable pub sl_fflush_cb : W → W × ℤ
  sl_fflush_cb w = c.fflush file w

  unfoldable pub sl_fseek_cb : W → ℤ → ℤ → W × ℤ
  sl_fseek_cb w offset whence =
      if eq_ℤ whence 0
      then c.fseek file w offset c.seek_set
      else if eq_ℤ whence 1
      then c.fseek file w offset c.seek_cur
      else if eq_ℤ whence 2
      then c.fseek file w offset c.seek_end
      else c.fseek file w offset whence

  unfoldable pub sl_ftell_cb : W → W × ℤ
  sl_ftell_cb w = c.ftello file w

  unfoldable pub sl_feof_cb : W → W × ℤ
  sl_feof_cb w = (w, c.feof file w)

  unfoldable pub sl_ferror_cb : W → W × ℤ
  sl_ferror_cb w = (w, c.ferror file w)

  unfoldable pub sl_flength_cb : W → W × ℤ
  sl_flength_cb w =
      let fd = c.fileno file w in
      let s = c.fstat fd w in
      if ltb_ℤ fd (ℤ.pos 0)
      then (w, ℤ.negsuc 0)
      else if ltb_ℤ s.0 (ℤ.pos 0)
      then (w, ℤ.negsuc 1)
      else (w, s.1)

  unfoldable pub sl_fseekable_cb : W → W × Seekable
  sl_fseekable_cb w = (w, supported)

  -- What `sl_fopen2` writes into the block of a stream
  unfoldable pub file_stream : Streamlike W Unit Unit
  unfolding sl_fread_cb sl_fwrite_cb sl_fflush_cb sl_fseek_cb sl_ftell_cb sl_feof_cb sl_ferror_cb
      sl_flength_cb sl_fseekable_cb
  file_stream = record {
    read = some sl_fread_cb;
    input = none;
    write = some sl_fwrite_cb;
    flush = some sl_fflush_cb;
    seek = some sl_fseek_cb;
    tell = some sl_ftell_cb;
    eof = some sl_feof_cb;
    error = some sl_ferror_cb;
    length = some sl_flength_cb;
    seekable = some sl_fseekable_cb;
    ckp_count = none;
    ckp = none;
    ckp_offset = none;
    ckp_metadata = none;
  }

-- How many files are open and how many blocks are allocated
pub record Kept : Type 0 where
  pub files : ℕ
  pub blocks : ℕ

module _ {F W : Type 0} (c : Stdio F W) where
  -- `sl_fopen2(file)`, where `malloc` succeeds or not
  unfoldable pub sl_fopen2 : Bool → F → Kept → Option (Streamlike W Unit Unit) × Kept
  sl_fopen2 malloc_ok file k =
      if malloc_ok
      then (some (file_stream c file), record k { blocks = k.blocks + 1 })
      else (none, k)

  -- `sl_fopen`, on what `fopen` returns
  unfoldable pub sl_fopen : Option F → Bool → Kept → Option (Streamlike W Unit Unit) × Kept
  unfolding sl_fopen2
  sl_fopen none malloc_ok k = (none, k)
  sl_fopen (some file) malloc_ok k = sl_fopen2 malloc_ok file (record k { files = k.files + 1 })

-- `sl_fclose`, on what `fclose` returns: it closes the file even where it fails.
unfoldable pub sl_fclose : ℤ → Kept → ℤ × Kept
sl_fclose code k =
    let k1 = record k { files = k.files - 1 } in
    if ltb_ℤ code (ℤ.pos 0)
    then (ℤ.negsuc 0, k1)
    else (ℤ.pos 0, record k1 { blocks = k.blocks - 1 })

-- `sl_fclose2`, which leaves the file open
unfoldable pub sl_fclose2 : Kept → ℤ × Kept
sl_fclose2 k = (ℤ.pos 0, record k { blocks = k.blocks - 1 })
