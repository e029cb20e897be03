-- ===== src/Circbuf/Read/Peek.antt =====
-- Looking at the front of the queue, and dropping it.
use libstreamlike.Common.{
  ℕ, ◌+◌, ◌-◌, ◌≤◌, ◌<◌, ◌≡◌, ◌↔◌, ltb, refl, ap, arith, ◌++◌, min, add_size, sub_size, add_size-eq,
  sub_size-eq, leb, if◌then◌else◌,
}
use libstreamlike.Memory.{bytes, bytes-append, length, length-bytes, drop, drop-bytes}
use libstreamlike.Circbuf.{Circbuf}
use libstreamlike.Circbuf.Length.{get_length-eq-used}
use libstreamlike.Circbuf.State.{used, place, contents, IsValid, IsCircbuf}
use libstreamlike.Circbuf.Read.{input_some, dispose_some}

-- Where the front of the queue stands once `n` bytes are dropped
abbrev skipped : ℕ → ℕ → ℕ → ℕ
skipped size roff n = if leb size (roff + n) then roff + n - size else roff + n

module _ (size roff woff n : ℕ) (v : IsValid size roff woff) (fits : n ≤ used size roff woff) where
  skipped-IsValid : IsValid size (skipped size roff n) woff
  skipped-IsValid = ground arith

  used-skipped : n + used size (skipped size roff n) woff ≡ used size roff woff
  used-skipped = ground arith

  place-skipped :
      (i : ℕ)
      → i < used size (skipped size roff n) woff
      → place size (skipped size roff n) i ≡ place size roff (n + i)
  place-skipped i h = ground arith

dispose_some-eq :
    (c : Circbuf) (len : ℕ)
    → IsCircbuf c
    → dispose_some c len ≡ (
      min len (used c.size c.roff c.woff),
      record c { roff = skipped c.size c.roff (min len (used c.size c.roff c.woff)) },
    )
unfolding dispose_some
dispose_some-eq c len s =
    rw (get_length-eq-used c s, least) (sum (min len (used c.size c.roff c.woff)) (omega arith))
  where
    least :
        (if ltb (used c.size c.roff c.woff) len then used c.size c.roff c.woff else len)
        ≡ min len (used c.size c.roff c.woff)
    least = ground arith

    sum :
        (n : ℕ)
        → n ≤ used c.size c.roff c.woff
        → ◌≡◌ {A = ℕ × Circbuf}
            (
              n,
              record c {
                roff =
                    if leb c.size (add_size c.roff n)
                    then sub_size (add_size c.roff n) c.size
                    else add_size c.roff n;
              },
            )
            (n, record c { roff = skipped c.size c.roff n })
    sum n h = ground (arith, add_size-eq c.roff n, sub_size-eq (c.roff + n) c.size)

-- On a sound buffer `dispose_some` drops the smaller of `len` and the number of bytes queued off the
-- front of the queue and returns that number; the buffer stays sound, and only its `roff` changes.
-- It goes on past the right end of the block, at which util/circbuf.h says that it stops.
pub dispose_some-drop :
    (c : Circbuf) (len : ℕ)
    → IsCircbuf c
    → let (n, c') = dispose_some c len in
      (n ≡ min len (length (contents c)))
      × (contents c' ≡ drop n (contents c))
      × IsCircbuf c'
      × (c' ≡ record c { roff = c'.roff })
dispose_some-drop c len s = rw (dispose_some-eq c len s) (
  rw length-bytes refl,
  drop-bytes _ _ n _ _ (used-skipped _ _ _ n s.valid (omega arith))
      (λ i h. ap c.mem.at (place-skipped _ _ _ n s.valid (omega arith) i h)),
  record { whole = s.whole; valid = skipped-IsValid _ _ _ _ s.valid (omega arith) },
  refl,
)
  where
    n : ℕ
    n = min len (used c.size c.roff c.woff)

-- What `input_some` returns without the wrap of `size_t`
abbrev ready : ℕ → ℕ → ℕ → ℕ → ℕ
ready size roff woff len = min len (if ltb woff roff then size - roff else woff - roff)

input_some-eq :
    (c : Circbuf) (len : ℕ)
    → IsCircbuf c
    → input_some c len ≡ (c.roff, ready c.size c.roff c.woff len)
unfolding input_some
input_some-eq c len s = ground (arith, sub_size-eq c.woff c.roff, sub_size-eq c.size c.roff)

module _ (size roff woff len : ℕ) (v : IsValid size roff woff) where
  ready-le :
      (ready size roff woff len ≤ used size roff woff)
      × (roff + ready size roff woff len ≤ size)
      × (ready size roff woff len ≤ len)
  ready-le = ground arith

  place-ready : (i : ℕ) → i < ready size roff woff len → roff + i ≡ place size roff i
  place-ready i h = ground arith

-- On a sound buffer `input_some` points at at most `len` bytes inside the block, and they are the
-- oldest of the queue, in order.
pub input_some-front :
    (c : Circbuf) (len : ℕ)
    → IsCircbuf c
    → let (off, n) = input_some c len in
      (n ≤ len)
      × (off + n ≤ c.mem.len)
      × (bytes (λ i. c.mem.at (off + i)) n ++ drop n (contents c) ≡ contents c)
input_some-front c len s = rw (input_some-eq c len s) (
  bounds.2,
  omega (arith, bounds),
  rw (← rest) (
      bytes-append _ _ _ n _ _ (omega (arith, bounds))
        (λ i h. ap c.mem.at (place-ready _ _ _ _ s.valid i h)) (λ i h. refl)),
)
  where
    n : ℕ
    n = ready c.size c.roff c.woff len

    bounds : (n ≤ used c.size c.roff c.woff) × (c.roff + n ≤ c.size) × (n ≤ len)
    bounds = ready-le c.size c.roff c.woff len s.valid

    rest :
        bytes (λ i. c.mem.at (place c.size c.roff (n + i))) (used c.size c.roff c.woff - n)
        ≡ drop n (contents c)
    rest = drop-bytes _ _ n _ (used c.size c.roff c.woff) (omega (arith, bounds)) (λ i h. refl)

-- On a sound buffer that holds data, and asked for at least one byte, `input_some` finds none exactly
-- when `roff` is `size`: where a read that ended at the end of the block has left it.
pub input_some-stalls :
    (c : Circbuf) (len : ℕ)
    → IsCircbuf c
    → 0 < len
    → 0 < length (contents c)
    → ((input_some c len).1 ≡ 0) ↔ (c.roff ≡ c.size)
input_some-stalls c len s some_len some_data =
    rw (input_some-eq c len s) (stalls (rw length-bytes at some_data))
  where
    stalls :
        0 < used c.size c.roff c.woff → (ready c.size c.roff c.woff len ≡ 0) ↔ (c.roff ≡ c.size)
    stalls h = (λ e. ground arith, λ e. ground arith)
