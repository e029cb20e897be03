-- ===== src/Circbuf.antt =====
-- src/streamlike/util/circbuf.c: the state of a circular buffer and the operations that move no
-- data. The children model reading, writing and the lifecycle.
pub mod State
pub mod Read
pub mod Write
pub mod Length
pub mod Feed
pub mod Threads
pub mod Lifecycle
pub mod Ops
mod Tests
use libstreamlike.Common.{ℕ, ◌+◌, Bool, true, false, leb, if◌then◌else◌, add_size, sub_size, ℤ}
use libstreamlike.Memory.{Block}

-- `struct circbuf_s`, where `mem` is the block behind its field `data`. A flag is 0 or 1. The locks
-- and condition variables hold no data.
pub record Circbuf : Type 0 where
  pub mem : Block
  pub size : ℕ
  pub woff : ℕ
  pub roff : ℕ
  pub wdone : Bool
  pub rdone : Bool

unfoldable pub reset : Circbuf → Circbuf
reset c = record c { rdone = false; wdone = false; woff = 0; roff = 0 }

unfoldable pub get_size : Circbuf → ℕ
get_size c = c.size

unfoldable pub get_length : Circbuf → ℕ
get_length c =
    let roff = c.roff in
    let woff = c.woff in
    if leb roff woff then sub_size woff roff else add_size (sub_size c.size roff) woff

unfoldable pub is_read_closed : Circbuf → Bool
is_read_closed c = c.rdone

unfoldable pub is_write_closed : Circbuf → Bool
is_write_closed c = c.wdone

-- The result is the code that the function returns, and the buffer it leaves.
unfoldable pub close_read : Circbuf → ℤ × Circbuf
close_read c = if c.rdone then (ℤ.negsuc 0, c) else (ℤ.pos 0, record c { rdone = true })

unfoldable pub close_write : Circbuf → ℤ × Circbuf
close_write c = if c.wdone then (ℤ.negsuc 0, c) else (ℤ.pos 0, record c { wdone = true })
