-- ===== src/Circbuf/Read/Plain.antt =====
-- `read_some_` without the wrap of `size_t` and the bounds of `memcpy`, which a valid buffer never
-- meets, and what each part of its result is.
use libstreamlike.Common.{
  ℕ, ◌+◌, ◌-◌, ◌≤◌, ◌<◌, ◌≡◌, arith, ◌⊎◌, some, min, size_mod, leb, ltb, ◌==◌, Bool-cases, inl, inr,
  if◌then◌else◌, add_size-eq, sub_size-eq,
}
use libstreamlike.Memory.{Block, memcpy-some, overlay}
use libstreamlike.Circbuf.State.{used, place, IsValid}
use libstreamlike.Circbuf.Read.{Taken, read_some_}

module _ (mem : Block) (size : ℕ) (buf : Block) (base buf_len roff woff : ℕ) where
  -- What a read leaves, field by field. The bytes left stand where they stood before.
  pub record IsTaken (t : Taken) : Type 0 where
    pub counted : t.count ≡ min buf_len (used size roff woff)
    pub valid : IsValid size t.roff woff
    pub left : t.count + used size t.roff woff ≡ used size roff woff
    pub moved : (t.roff ≡ roff + t.count) ⊎ (t.roff + size ≡ roff + t.count)
    pub kept :
        (i : ℕ) → i < used size t.roff woff → place size t.roff i ≡ place size roff (t.count + i)
    pub copied : (i : ℕ) → i < t.count → t.buf.at (base + i) ≡ mem.at (place size roff i)
    pub frame : (j : ℕ) → (j < base) ⊎ (base + t.count ≤ j) → t.buf.at j ≡ buf.at j
    pub len_eq : t.buf.len ≡ buf.len

  -- The caller's block after `n` bytes from `roff`
  abbrev first : ℕ → Block
  first n = record buf { at = overlay buf.at base mem.at roff n }

  -- The caller's block after `n` bytes from `roff` and `m` bytes from the start of the buffer
  abbrev second : ℕ → ℕ → Block
  second n m = record buf { at = overlay (overlay buf.at base mem.at roff n) (base + n) mem.at 0 m }

  abbrev once : ℕ → Taken
  once n = record { buf = first n; roff = roff + n; count = n }

  plain : Taken
  plain =
      if roff == woff
      then record { buf = buf; roff = roff; count = 0 }
      else if ltb roff woff
      then (if leb buf_len (woff - roff) then once buf_len else once (woff - roff))
      else if leb buf_len (size - roff)
      then once buf_len
      else if ltb (buf_len - (size - roff)) woff
      then record {
        buf = second (size - roff) (buf_len - (size - roff));
        roff = buf_len - (size - roff);
        count = buf_len;
      }
      else record { buf = second (size - roff) woff; roff = woff; count = size - roff + woff }

  module _ (v : IsValid size roff woff) (whole : mem.len ≡ size) (room : base + buf_len ≤ buf.len)
      (small : buf_len < size_mod) where
    read_some_-eq-plain : read_some_ mem size buf base buf_len roff woff ≡ some plain
    unfolding read_some_ plain
    read_some_-eq-plain = elim (Bool-cases (roff == woff)) [
      | inl e ↦ rw e
      | inr ne ↦ rw ne (elim (Bool-cases (ltb roff woff)) [
        | inl lt ↦
            rw (lt, sub_size-eq woff roff (ground arith) (ground arith))
              (elim (Bool-cases (leb buf_len (woff - roff))) [
                | inl a ↦ rw (
                  a,
                  memcpy-some buf base mem roff buf_len (ground arith) (ground arith),
                  add_size-eq roff buf_len (ground arith),
                )
                | inr a ↦ rw (
                  a,
                  memcpy-some buf base mem roff (woff - roff) (ground arith) (ground arith),
                  add_size-eq roff (woff - roff) (ground arith),
                )
              ])
        | inr ge ↦
            rw (ge, sub_size-eq size roff (ground arith) (ground arith))
              (elim (Bool-cases (leb buf_len (size - roff))) [
                | inl a ↦ rw (
                  a,
                  memcpy-some buf base mem roff buf_len (ground arith) (ground arith),
                  add_size-eq roff buf_len (ground arith),
                )
                | inr a ↦
                    rw
                      (
                        a,
                        memcpy-some buf base mem roff (size - roff) (ground arith) (ground arith),
                        sub_size-eq buf_len (size - roff) (ground arith) (ground arith),
                      )
                      (elim (Bool-cases (ltb (buf_len - (size - roff)) woff)) [
                        | inl c ↦ rw (
                          c,
                          memcpy-some (first (size - roff)) (base + (size - roff)) mem 0
                              (buf_len - (size - roff)) (ground arith) (ground arith),
                        )
                        | inr c ↦ rw (
                          c,
                          memcpy-some (first (size - roff)) (base + (size - roff)) mem 0 woff
                              (ground arith) (ground arith),
                          add_size-eq (size - roff) woff (ground arith),
                        )
                      ])
              ])
      ])
    ]

    count-plain : plain.count ≡ min buf_len (used size roff woff)
    unfolding plain
    count-plain = ground arith

    plain-IsValid : IsValid size plain.roff woff
    unfolding plain
    plain-IsValid = ground arith

    used-plain : plain.count + used size plain.roff woff ≡ used size roff woff
    unfolding plain
    used-plain = ground arith

    moved-plain : (plain.roff ≡ roff + plain.count) ⊎ (plain.roff + size ≡ roff + plain.count)
    unfolding plain
    moved-plain = ground arith

    place-plain :
        (i : ℕ)
        → i < used size plain.roff woff
        → place size plain.roff i ≡ place size roff (plain.count + i)
    unfolding plain
    place-plain i h = ground arith

    at-plain : (i : ℕ) → i < plain.count → plain.buf.at (base + i) ≡ mem.at (place size roff i)
    unfolding plain
    at-plain i h = ground arith

    frame-plain : (j : ℕ) → (j < base) ⊎ (base + plain.count ≤ j) → plain.buf.at j ≡ buf.at j
    unfolding plain
    frame-plain j h = ground arith

    len-plain : plain.buf.len ≡ buf.len
    unfolding plain
    len-plain = ground arith

    -- A read inside its blocks on valid offsets does not fault, and leaves what `IsTaken` says.
    pub read_some_-IsTaken :
        (t : Taken) × (read_some_ mem size buf base buf_len roff woff ≡ some t) × IsTaken t
    read_some_-IsTaken = (
      plain,
      read_some_-eq-plain,
      record {
        counted = count-plain;
        valid = plain-IsValid;
        left = used-plain;
        moved = moved-plain;
        kept = place-plain;
        copied = at-plain;
        frame = frame-plain;
        len_eq = len-plain;
      },
    )
