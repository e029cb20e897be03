-- ===== src/Buffer/Threads/Source.antt =====
-- What the filler relies on of the inner stream.
use libstreamlike.Common.{
  ℕ, ◌+◌, ◌≤◌, ◌<◌, ◌≡◌, refl, sym, ◌⊎◌, ℤ, eq_ℤ, eq_ℤ-eq, ne-eq_ℤ, true, false,
}
use libstreamlike.Memory.{Block, bytes, bytes-append}
use libstreamlike.Circbuf.Feed.Step.{IsWriter}
use libstreamlike.Buffer.Machine.{Inner, filler_cb}

-- The contracts of `sl_read_cb_t` and `sl_seek_cb_t`, for a stream whose byte at offset `i` is
-- `content i`, and that stands at the offset `at w`: a read stores at most the bytes asked for and
-- goes on by their number; a seek from the start that returns 0 stands at the offset, and one that
-- does not stays.
pub record IsInner {W : Type 0} (inner : Inner W) (content : ℕ → ℕ) (at : W → ℕ) : Type 0 where
  pub at_most : (w : W) (mem : Block) (there n : ℕ) → (inner.read w mem there n).2 ≤ n
  pub len_eq : (w : W) (mem : Block) (there n : ℕ) → (inner.read w mem there n).1.len ≡ mem.len
  pub frame :
      (w : W) (mem : Block) (there n j : ℕ)
      → (j < there) ⊎ (there + n ≤ j)
      → (inner.read w mem there n).1.at j ≡ mem.at j
  pub stored :
      (w : W) (mem : Block) (there n i : ℕ)
      → i < (inner.read w mem there n).2
      → (inner.read w mem there n).1.at (there + i) ≡ content (at w + i)
  pub goes_on :
      (w : W) (mem : Block) (there n : ℕ)
      → at (inner.read w mem there n).0 ≡ at w + (inner.read w mem there n).2
  pub lands :
      (w : W) (offset : ℤ)
      → (inner.seek w offset (ℤ.pos 0)).1 ≡ ℤ.pos 0
      → ℤ.pos (at (inner.seek w offset (ℤ.pos 0)).0) ≡ offset
  pub stays :
      (w : W) (offset : ℤ)
      → ¬ ((inner.seek w offset (ℤ.pos 0)).1 ≡ ℤ.pos 0)
      → at (inner.seek w offset (ℤ.pos 0)).0 ≡ at w

-- Over such a stream the filler's callback hands over the bytes up to its offset.
pub filler_cb-IsWriter :
    {W : Type 0} (inner : Inner W) (content : ℕ → ℕ) (at : W → ℕ)
    → IsInner inner content at
    → IsWriter (filler_cb inner) (λ w. bytes content (at w))
filler_cb-IsWriter inner content at c = record {
  at_most = c.at_most;
  len_eq = c.len_eq;
  frame = c.frame;
  gives = λ w mem there n. sym (
      bytes-append content _ content (at w) (inner.read w mem there n).2 _
        (sym (c.goes_on w mem there n)) (λ i l. refl) (λ i l. c.stored w mem there n i l));
}

-- A seek with `SL_SEEK_SET`, by the test that the code makes of its result
pub seek-lands :
    {W : Type 0} (inner : Inner W) (content : ℕ → ℕ) (at : W → ℕ)
    → IsInner inner content at
    → (w : W) (offset whence : ℤ) → whence ≡ ℤ.pos 0
    → let r = inner.seek w offset whence in
      (eq_ℤ r.1 0 ≡ true → ℤ.pos (at r.0) ≡ offset) × (eq_ℤ r.1 0 ≡ false → at r.0 ≡ at w)
seek-lands inner content at c w offset whence e =
    rw e ((λ t. c.lands w offset (eq_ℤ-eq _ 0 t)), (λ f. c.stays w offset (ne-eq_ℤ _ 0 f)))
