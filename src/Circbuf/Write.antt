-- ===== src/Circbuf/Write.antt =====
-- src/streamlike/util/circbuf.c: the producer's side without blocking, from a buffer.
pub mod Plain
pub mod Fifo
use libstreamlike.Common.{
  ℕ, ◌+◌, Bool, leb, ltb, ◌==◌, ◌&&◌, ◌||◌, if◌then◌else◌, add_size, sub_size, Option, some, ◌>>=◌,
}
use libstreamlike.Memory.{Block, memcpy}
use libstreamlike.Circbuf.{Circbuf}

-- What a write leaves: the buffer's block, `*woffp`, and the number that it returns
pub record Stored : Type 0 where
  pub mem : Block
  pub woff : ℕ
  pub count : ℕ

-- A branch of `write_some_` that ends with a copy: the block that `memcpy` leaves, `*woffp` and the
-- number returned
abbrev pub stored : Option Block → ℕ → ℕ → Option Stored
stored copied woff count = copied >>= λ m. some (record { mem = m; woff = woff; count = count })

-- The test with which `write_some_` and `write_some2_` begin
abbrev pub is_full : ℕ → ℕ → ℕ → Bool
is_full size roff woff = add_size woff 1 == roff || (woff == sub_size size 1 && roff == 0)

-- `write_some_(mem, size, buf + base, buf_len, roff, &woff)`
unfoldable pub write_some_ : Block → ℕ → Block → ℕ → ℕ → ℕ → ℕ → Option Stored
write_some_ mem size buf base buf_len roff woff =
    if is_full size roff woff
    then some (record { mem = mem; woff = woff; count = 0 })
    else if ltb woff roff
    then (let avail = sub_size (sub_size roff woff) 1 in
        if leb buf_len avail
        then stored (memcpy mem woff buf base buf_len) (add_size woff buf_len) buf_len
        else stored (memcpy mem woff buf base avail) (add_size woff avail) avail)
    else (let avail = sub_size size woff in
        let rest = sub_size buf_len avail in
        if ltb buf_len avail
        then stored (memcpy mem woff buf base buf_len) (add_size woff buf_len) buf_len
        else if roff == 0
        then stored (memcpy mem woff buf base (sub_size avail 1)) (add_size woff (sub_size avail 1))
            (sub_size avail 1)
        else (memcpy mem woff buf base avail >>= λ m.
            if ltb rest roff
            then stored (memcpy m 0 buf (base + avail) rest) rest buf_len
            else stored (memcpy m 0 buf (base + avail) (sub_size roff 1)) (sub_size roff 1)
                (sub_size (add_size avail roff) 1)))

-- What a write on a buffer leaves: the buffer, and the number that it returns
pub record Writing : Type 0 where
  pub cbuf : Circbuf
  pub count : ℕ

-- `roff` is read once, when it is passed on. The lock and the signal change no data.
unfoldable pub write_some : Circbuf → Block → ℕ → ℕ → Option Writing
write_some c buf base buf_len = write_some_ c.mem c.size buf base buf_len c.roff c.woff >>= λ t.
    some (record { cbuf = record c { mem = t.mem; woff = t.woff }; count = t.count })
