-- ===== src/File/Open.antt =====
-- What opening and closing a file stream leaves open and allocated.
use libstreamlike.Common.{
  ℕ, ◌+◌, ◌≡◌, refl, ap₂, arith, inl, inr, Bool-cases, ℤ, ltb_ℤ, Bool, true, false, Option, none,
  some, if◌then◌else◌,
}
use libstreamlike.Stream.{Streamlike}
use libstreamlike.File.{Stdio, Kept, file_stream, sl_fopen2, sl_fopen, sl_fclose}

abbrev closed : ℕ → ℕ → ℤ × Kept
closed f b = (ℤ.negsuc 0, record { files = f; blocks = b })

abbrev returned : ℕ → ℕ → ℤ × Kept
returned f b = (ℤ.pos 0, record { files = f; blocks = b })

-- `r` is what is left of `k` after `sl_fopen` on what `fopen` and `malloc` returned, and
-- `code` is what a later `fclose` returns.
abbrev pub IsOpened :
    {F W : Type 0}
    → Stdio F W
    → Option F
    → Bool
    → ℤ
    → Kept
    → Option (Streamlike W Unit Unit) × Kept
    → Type 0
IsOpened c none ok code k r = (r.0 ≡ none) × (r.1 ≡ k)
IsOpened c (some file) false code k r = (r.0 ≡ none) × (r.1 ≡ record k { files = k.files + 1 })
IsOpened c (some file) true code k r =
    (r.0 ≡ some (file_stream c file))
    × (r.1 ≡ record { files = k.files + 1; blocks = k.blocks + 1 })
    × (sl_fclose code r.1 ≡ (
        if ltb_ℤ code (ℤ.pos 0)
        then (ℤ.negsuc 0, record k { blocks = k.blocks + 1 })
        else (ℤ.pos 0, k)))

-- Where `fopen` fails, `sl_fopen` returns NULL and keeps nothing. Where only `malloc` fails, it returns
-- NULL and the file stays open. Where both succeed, it returns a stream over the file, and `sl_fclose`
-- on it gives back the file and the block; but if `fclose` fails, -1 is returned and the block stays
-- allocated.
pub sl_fopen-IsOpened :
    {F W : Type 0} (c : Stdio F W) (file : Option F) (ok : Bool) (code : ℤ) (k : Kept)
    → IsOpened c file ok code k (sl_fopen c file ok k)
unfolding sl_fopen sl_fopen2 sl_fclose
sl_fopen-IsOpened c none ok code k = (refl, refl)
sl_fopen-IsOpened c (some file) false code k = (refl, refl)
sl_fopen-IsOpened c (some file) true code k = (
  refl,
  refl,
  elim (Bool-cases (ltb_ℤ code (ℤ.pos 0))) [
    | inl e ↦ rw e (ap₂ closed (omega arith) refl)
    | inr e ↦ rw e (ap₂ returned (omega arith) (omega arith))
  ],
)
