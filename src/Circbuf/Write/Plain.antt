-- ===== src/Circbuf/Write/Plain.antt =====
-- `write_some_` on valid offsets: it copies nothing, once or twice, no sum wraps and no copy leaves
-- its blocks; and what each part of its result is.
use libstreamlike.Common.{
  ℕ, ◌+◌, ◌-◌, ◌≤◌, ◌<◌, ◌≡◌, arith, some, min, size_mod, leb, ltb, ◌==◌, Bool-cases, inl, inr,
  if◌then◌else◌, false, add_size, sub_size, add_size-eq, sub_size-eq, ◌≢◌, ◌&&◌, ◌||◌, refl, Option,
  ◌>>=◌,
}
use libstreamlike.Memory.{Block, memcpy, memcpy-some, overlay}
use libstreamlike.Circbuf.State.{used, place, IsValid}
use libstreamlike.Circbuf.Write.{Stored, stored, write_some_}

module _ (mem : Block) (size : ℕ) (buf : Block) (base buf_len roff woff : ℕ) where
  -- The buffer's block after `n` bytes at `woff`
  abbrev first : ℕ → Block
  first n = record mem { at = overlay mem.at woff buf.at base n }

  -- The buffer's block after `n` bytes at `woff` and `m` bytes at the start
  abbrev second : ℕ → ℕ → Block
  second n m = record mem { at = overlay (overlay mem.at woff buf.at base n) 0 buf.at (base + n) m }

  abbrev once : ℕ → Stored
  once n = record { mem = first n; woff = woff + n; count = n }

  -- What a write leaves, field by field. The bytes not yet read stay where they are.
  pub record IsStored (t : Stored) : Type 0 where
    pub counted : t.count ≡ min buf_len (size - 1 - used size roff woff)
    pub valid : IsValid size roff t.woff
    pub grown : used size roff woff + t.count ≡ used size roff t.woff
    pub moved : t.woff ≡ place size woff t.count
    pub kept :
        (i : ℕ)
        → i < used size roff woff
        → t.mem.at (place size roff i) ≡ mem.at (place size roff i)
    pub added :
        (i : ℕ)
        → i < t.count
        → buf.at (base + i) ≡ t.mem.at (place size roff (used size roff woff + i))
    pub len_eq : t.mem.len ≡ mem.len

  abbrev nothing : Stored
  nothing = record { mem = mem; woff = woff; count = 0 }

  abbrev twice : ℕ → ℕ → ℕ → Stored
  twice n m k = record { mem = second n m; woff = m; count = k }

  module _ (v : IsValid size roff woff) (whole : mem.len ≡ size) (room : base + buf_len ≤ buf.len)
      (small : buf_len < size_mod) where
    nothing-IsStored : used size roff woff ≡ size - 1 → IsStored nothing
    nothing-IsStored full = ground arith

    once-IsStored :
        (n : ℕ)
        → n ≡ min buf_len (size - 1 - used size roff woff)
        → woff + n < size
        → IsStored (once n)
    once-IsStored n e fits = ground arith

    twice-IsStored :
        (n m k : ℕ)
        → n + m ≡ k
        → k ≡ min buf_len (size - 1 - used size roff woff)
        → woff + n ≡ size
        → roff ≤ woff
        → m < roff
        → IsStored (twice n m k)
    twice-IsStored n m k e counted ends behind below = ground arith

    -- The code returns, and `IsStored` holds of what it leaves.
    abbrev Stores : Option Stored → Type 0
    Stores r = (t : Stored) × (r ≡ some t) × IsStored t

    copy-once :
        (n : ℕ)
        → n ≡ min buf_len (size - 1 - used size roff woff)
        → woff + n < size
        → Stores (stored (memcpy mem woff buf base n) (woff + n) n)
    copy-once n e fits =
        rw (memcpy-some mem woff buf base n (omega arith) (omega arith))
          (once n, refl, once-IsStored n e fits)

    copy-twice :
        (n m k : ℕ)
        → n + m ≡ k
        → k ≡ min buf_len (size - 1 - used size roff woff)
        → woff + n ≡ size
        → roff ≤ woff
        → m < roff
        → Stores (memcpy mem woff buf base n >>= λ b. stored (memcpy b 0 buf (base + n) m) m k)
    copy-twice n m k e counted ends behind below =
        rw
          (
            memcpy-some mem woff buf base n (omega arith) (omega arith),
            memcpy-some (first n) 0 buf (base + n) m (omega arith) (omega arith),
          )
          (twice n m k, refl, twice-IsStored n m k e counted ends behind below)

    -- The write cannot reach round the end of the block.
    write_before :
        woff < roff
        → woff + 1 ≢ roff
        → Stores (
            let avail = sub_size (sub_size roff woff) 1 in
            if leb buf_len avail
            then stored (memcpy mem woff buf base buf_len) (add_size woff buf_len) buf_len
            else stored (memcpy mem woff buf base avail) (add_size woff avail) avail)
    write_before lt ne =
        rw
          (
            sub_size-eq roff woff (ground arith) (ground arith),
            sub_size-eq (roff - woff) 1 (ground arith) (ground arith),
          )
          (elim (Bool-cases (leb buf_len (roff - woff - 1))) [
            | inl a ↦
                rw (a, add_size-eq woff buf_len (ground arith))
                  (copy-once buf_len (ground arith) (ground arith))
            | inr a ↦
                rw (a, add_size-eq woff (roff - woff - 1) (ground arith))
                  (copy-once (roff - woff - 1) (ground arith) (ground arith))
          ])

    -- The write goes round the end, to the byte before `roff` at most.
    write_round :
        roff ≤ woff
        → 0 < roff
        → size - woff ≤ buf_len
        → Stores (
            let avail = size - woff in
            let rest = sub_size buf_len avail in
            memcpy mem woff buf base avail >>= λ m.
            if ltb rest roff
            then stored (memcpy m 0 buf (base + avail) rest) rest buf_len
            else stored
                (memcpy m 0 buf (base + avail) (sub_size roff 1))
                (sub_size roff 1)
                (sub_size (add_size avail roff) 1))
    write_round behind some_ long =
        rw
          (
            sub_size-eq buf_len (size - woff) (ground arith) (ground arith),
            sub_size-eq roff 1 (ground arith) (ground arith),
            add_size-eq (size - woff) roff (ground arith),
            sub_size-eq (size - woff + roff) 1 (ground arith) (ground arith),
          )
          (elim (Bool-cases (ltb (buf_len - (size - woff)) roff)) [
            | inl a ↦ rw a (
                copy-twice (size - woff) (buf_len - (size - woff)) buf_len (omega arith)
                  (ground arith) (omega arith) (omega arith) (ground arith))
            | inr a ↦ rw a (
                copy-twice (size - woff) (roff - 1) (size - woff + roff - 1) (omega arith)
                  (ground arith) (omega arith) (omega arith) (omega arith))
          ])

    -- The write starts at or behind `roff`.
    write_behind :
        roff ≤ woff
        → ((woff == size - 1 && roff == 0) ≡ false)
        → Stores (
            let avail = sub_size size woff in
            let rest = sub_size buf_len avail in
            if ltb buf_len avail
            then stored (memcpy mem woff buf base buf_len) (add_size woff buf_len) buf_len
            else if roff == 0
            then stored
                (memcpy mem woff buf base (sub_size avail 1))
                (add_size woff (sub_size avail 1))
                (sub_size avail 1)
            else (memcpy mem woff buf base avail >>= λ m.
                if ltb rest roff
                then stored (memcpy m 0 buf (base + avail) rest) rest buf_len
                else stored
                    (memcpy m 0 buf (base + avail) (sub_size roff 1))
                    (sub_size roff 1)
                    (sub_size (add_size avail roff) 1)))
    write_behind behind ne =
        rw (sub_size-eq size woff (ground arith) (ground arith))
          (elim (Bool-cases (ltb buf_len (size - woff))) [
            | inl a ↦
                rw (a, add_size-eq woff buf_len (ground arith))
                  (copy-once buf_len (ground arith) (ground arith))
            | inr a ↦ rw a (elim (Bool-cases (roff == 0)) [
              | inl z ↦
                  rw
                    (
                      z,
                      sub_size-eq (size - woff) 1 (ground arith) (ground arith),
                      add_size-eq woff (size - woff - 1) (ground arith),
                    )
                    (copy-once (size - woff - 1) (ground arith) (ground arith))
              | inr nz ↦ rw nz (write_round behind (ground arith) (ground arith))
            ])
          ])

    -- A write from inside its block on valid offsets does not fault, and leaves what `IsStored` says.
    pub write_some_-IsStored : Stores (write_some_ mem size buf base buf_len roff woff)
    unfolding write_some_
    write_some_-IsStored =
        rw (add_size-eq woff 1 (omega arith), sub_size-eq size 1 (omega arith) (omega arith))
          (elim (Bool-cases (woff + 1 == roff || (woff == size - 1 && roff == 0))) [
            | inl full ↦ rw full (nothing, refl, nothing-IsStored (ground arith))
            | inr open_ ↦ rw open_ (elim (Bool-cases (ltb woff roff)) [
              | inl lt ↦ rw lt (write_before (ground arith) (ground arith))
              | inr ge ↦ rw ge (write_behind (ground arith) (ground arith))
            ])
          ])
