-- ===== src/Circbuf/Threads/Offsets.antt =====
-- How offsets move round a buffer, in numbers.
use libstreamlike.Common.{ℕ, ◌+◌, ◌-◌, ◌≤◌, ◌<◌, ◌≡◌, arith}
use libstreamlike.Circbuf.State.{used, place, IsValid}
use libstreamlike.Circbuf.Threads.Inv.{Ahead, IsPast}

module _ (size roff woff : ℕ) (v : IsValid size roff woff) where
  pub used-lt : used size roff woff < size
  used-lt = ground arith

  module _ (n roff' : ℕ) (a : Ahead size roff n roff') (inside : roff' ≤ size)
      (n_le : n ≤ used size roff woff) where
    pub ahead-IsValid : IsValid size roff' woff
    ahead-IsValid = ground arith

    pub used-ahead : n + used size roff' woff ≡ used size roff woff
    used-ahead = ground arith

    pub place-ahead :
        (i : ℕ) → i < used size roff' woff → place size roff' i ≡ place size roff (n + i)
    place-ahead i h = ground arith

    pub ahead-IsPast : (frozen : ℕ) → IsPast size roff woff frozen → IsPast size roff' woff frozen
    ahead-IsPast frozen p = record {
      valid = p.valid;
      less = omega (arith, used-ahead, p.less);
      ahead = ground (arith, p.valid, p.less, p.ahead);
    }

  module _ (n : ℕ) (free : used size roff woff + n < size) where
    pub place-IsValid : IsValid size roff (place size woff n)
    place-IsValid = ground arith

    pub used-place : used size roff woff + n ≡ used size roff (place size woff n)
    used-place = ground arith

    pub place-used : (i : ℕ) → i < n → place size woff i ≡ place size roff (used size roff woff + i)
    place-used i h = ground arith

  -- A byte that is queued now was queued when `roff` was `frozen`.
  pub place-past :
      (frozen : ℕ) (i : ℕ)
      → IsPast size roff woff frozen
      → i < used size roff woff
      → place size roff i ≡ place size frozen (used size frozen woff - used size roff woff + i)
  place-past frozen i p h = ground (arith, p.valid, p.less, p.ahead)
