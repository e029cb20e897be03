-- ===== src/Circbuf/Read.antt =====
-- src/streamlike/util/circbuf.c: the consumer's side without blocking.
pub mod Plain
pub mod Fifo
pub mod Peek
use libstreamlike.Common.{
  ℕ, ◌+◌, leb, ltb, ◌==◌, if◌then◌else◌, add_size, sub_size, Option, none, some, ◌>>=◌,
}
use libstreamlike.Memory.{Block, memcpy}
use libstreamlike.Circbuf.{Circbuf, get_length}

-- What a read leaves: the caller's block, `*roffp`, and the number that it returns
pub record Taken : Type 0 where
  pub buf : Block
  pub roff : ℕ
  pub count : ℕ

-- A branch of `read_some_` that copies once: the block that `memcpy` leaves, `*roffp` and the
-- number returned
abbrev pub taken : Option Block → ℕ → ℕ → Option Taken
taken copied roff count = copied >>= λ b. some (record { buf = b; roff = roff; count = count })

-- `read_some_(mem, size, buf + base, buf_len, &roff, woff)`
unfoldable pub read_some_ : Block → ℕ → Block → ℕ → ℕ → ℕ → ℕ → Option Taken
read_some_ mem size buf base buf_len roff woff =
    if roff == woff
    then some (record { buf = buf; roff = roff; count = 0 })
    else if ltb roff woff
    then (let avail = sub_size woff roff in
        if leb buf_len avail
        then taken (memcpy buf base mem roff buf_len) (add_size roff buf_len) buf_len
        else taken (memcpy buf base mem roff avail) (add_size roff avail) avail)
    else (let avail = sub_size size roff in
        let rest = sub_size buf_len avail in
        if leb buf_len avail
        then taken (memcpy buf base mem roff buf_len) (add_size roff buf_len) buf_len
        else (memcpy buf base mem roff avail >>= λ b.
            if ltb rest woff
            then taken (memcpy b (base + avail) mem 0 rest) rest buf_len
            else taken (memcpy b (base + avail) mem 0 woff) woff (add_size avail woff)))

-- What a read on a buffer leaves: the buffer, the caller's block, and the number that it returns
pub record Reading : Type 0 where
  pub cbuf : Circbuf
  pub buf : Block
  pub count : ℕ

-- `woff` is read once, when it is passed on. The lock and the signal change no data.
unfoldable pub read_some : Circbuf → Block → ℕ → ℕ → Option Reading
read_some c buf base buf_len = read_some_ c.mem c.size buf base buf_len c.roff c.woff >>= λ t.
    some (record { cbuf = record c { roff = t.roff }; buf = t.buf; count = t.count })

-- The pointer that `input_some` stores, as an offset into the buffer's block, and its result
unfoldable pub input_some : Circbuf → ℕ → ℕ × ℕ
input_some c buf_len =
    let roff = c.roff in
    let woff = c.woff in
    let to_end = sub_size c.size roff in
    let ready = sub_size woff roff in
    (
      roff,
      if ltb woff roff
          then (if ltb buf_len to_end then buf_len else to_end)
          else (if ltb buf_len ready then buf_len else ready),
    )

unfoldable pub dispose_some : Circbuf → ℕ → ℕ × Circbuf
unfolding get_length
dispose_some c len =
    let cbuf_len = get_length c in
    let n = if ltb cbuf_len len then cbuf_len else len in
    let roff = add_size c.roff n in
    (n, record c { roff = if leb c.size roff then sub_size roff c.size else roff })
