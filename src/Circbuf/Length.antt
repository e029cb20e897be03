-- ===== src/Circbuf/Length.antt =====
-- The operations of src/streamlike/util/circbuf.c that move no data, on a sound buffer.
use libstreamlike.Common.{◌-◌, ◌<◌, ◌≡◌, refl, sym, arith, false, [], add_size-eq, sub_size-eq}
use libstreamlike.Memory.{length, length-bytes}
use libstreamlike.Circbuf.{Circbuf, reset, get_size, get_length, is_read_closed, is_write_closed}
use libstreamlike.Circbuf.State.{used, contents, IsCircbuf}

pub get_length-eq-used : (c : Circbuf) → IsCircbuf c → get_length c ≡ used c.size c.roff c.woff
unfolding get_length
get_length-eq-used c s = ground (
  arith,
  sub_size-eq c.woff c.roff,
  sub_size-eq c.size c.roff,
  add_size-eq (c.size - c.roff) c.woff,
)

-- On a sound buffer `get_length` is the number of bytes queued, which is less than `get_size`.
pub get_length-contents :
    (c : Circbuf) → IsCircbuf c → (get_length c ≡ length (contents c)) × (get_length c < get_size c)
unfolding get_size
get_length-contents c s = rw (get_length-eq-used c s) (sym (length-bytes _ _), ground arith)

-- `reset` empties the queue and opens both ends again, and keeps a buffer sound.
pub reset_lem :
    (c : Circbuf)
    → IsCircbuf c
    → IsCircbuf (reset c)
      × (contents (reset c) ≡ [])
      × (is_read_closed (reset c) ≡ false)
      × (is_write_closed (reset c) ≡ false)
unfolding reset is_read_closed is_write_closed
reset_lem c s = (record { whole = s.whole; valid = ground arith }, ground arith, refl, refl)
