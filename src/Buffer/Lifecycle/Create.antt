-- ===== src/Buffer/Lifecycle/Create.antt =====
-- What `sl_buffer_create2` holds when it returns.
use libstreamlike.Common.{
  ℕ, ◌<◌, ◌-◌, ◌≡◌, ◌⊎◌, inl, inr, refl, arith, Bool, true, false, Bool-cases, if-both, ◌==◌, ◌&&◌,
  not, if◌then◌else◌, List, [], ◌∷◌, Option, none, some, size_mod,
}
use libstreamlike.Circbuf.{Circbuf}
use libstreamlike.Circbuf.Lifecycle as Ring
use libstreamlike.Circbuf.Lifecycle.Release.{
  IsAllocator, IsFresh, IsHeld, IsComplete, init-IsComplete,
}
use libstreamlike.Buffer.{Buffer}
use libstreamlike.Buffer.Lifecycle.{
  Part, Try, Held, nothing_held, no_part, full_part, Outcomes, acquire, attempt, fail, fresh,
  create_seek_cond, create_seek_lock, create_eof_cond, create_eof_lock, create_ring, create2,
}

-- What is held of the circular buffer when all of it is
abbrev pub ring_held : Ring.Held
ring_held = record {
  struct = true;
  block = true;
  rcond = true;
  wcond = true;
  rlock = true;
  wlock = true;
}

abbrev pub all_held : Held
all_held = record {
  context = true;
  cbuf = ring_held;
  stream = true;
  filler = false;
  eof_lock = full_part;
  eof_cond = full_part;
  seek_lock = full_part;
  seek_cond = full_part;
}

-- What is left of a circular buffer whose struct alone is freed
abbrev pub leak_held : Held
leak_held = record nothing_held { cbuf = record ring_held { struct = false } }

-- The first of the attempts that failed
abbrev pub first_failure : List Try → Option Try
first_failure [] = none
first_failure (t ∷ ts) = if t.block_ok && (t.code == 0) then first_failure ts else some t

abbrev pub tries : Outcomes → List Try
tries o = o.eof_lock ∷ o.eof_cond ∷ o.seek_lock ∷ o.seek_cond ∷ []

-- What `sl_buffer_create2` comes to for a circular buffer of `n` bytes and steps of `step_size`
abbrev pub IsAccounted : Outcomes → ℕ → ℕ → Option (Option Buffer × Held) → Type 0
IsAccounted o n step_size none =
    (t : Try) × (first_failure (tries o) ≡ some t) × (t.block_ok ≡ true)
IsAccounted o n step_size (some (none, h)) = (h ≡ nothing_held) ⊎ (h ≡ leak_held)
IsAccounted o n step_size (some (some b, h)) =
    (first_failure (tries o) ≡ none)
    × (h ≡ all_held)
    × (b ≡ fresh b.cbuf step_size)
    × IsFresh n b.cbuf

-- An attempt fails for want of memory, fails to initialise, or succeeds.
attempt-cases :
    (P : Option (Option Buffer × Held) → Type 0) (t : Try) (set : Part → Held)
    (next : Held → Option (Option Buffer × Held))
    → (t.block_ok && (t.code == 0) ≡ false → P (fail (set no_part)))
    → (t.block_ok && (t.code == 0) ≡ false
        → t.block_ok ≡ true
        → P (fail (set (record { block = true; live = false }))))
    → (t.block_ok && (t.code == 0) ≡ true → P (next (set full_part)))
    → P (attempt (acquire t) set next)
attempt-cases P t set next p q r = elim (Bool-cases t.block_ok) [
  | inr e ↦ simp e (p (ground (arith, e)))
  | inl e ↦ elim (Bool-cases (t.code == 0)) [
    | inl f ↦ simp (e, f) (r (ground (arith, e, f)))
    | inr f ↦ simp (e, f) (q (ground (arith, e, f)) e)
  ]
]

module _ (o : Outcomes) (n step_size : ℕ) where
  abbrev Accounted : Option (Option Buffer × Held) → Type 0
  Accounted = IsAccounted o n step_size

  module _ (c : Circbuf) (f : IsFresh n c) where
    -- What is held before the first lock is acquired
    abbrev start_held : Held
    start_held = record nothing_held { context = true; cbuf = ring_held; stream = true }

    locks-IsAccounted : Accounted (create_eof_lock o c step_size start_held)
    unfolding fail
    locks-IsAccounted =
        let h1 = record start_held { eof_lock = full_part } in
        let h2 = record h1 { eof_cond = full_part } in
        let h3 = record h2 { seek_lock = full_part } in
        attempt-cases Accounted o.eof_lock (λ p. record start_held { eof_lock = p })
          (create_eof_cond o c step_size) (λ e. inr refl) (λ e b. (o.eof_lock, rw e refl, b))
          (λ e1.
            attempt-cases Accounted o.eof_cond (λ p. record h1 { eof_cond = p })
              (create_seek_lock o c step_size) (λ e. inr refl)
              (λ e b. (o.eof_cond, rw (e1, e) refl, b))
              (λ e2.
                attempt-cases Accounted o.seek_lock (λ p. record h2 { seek_lock = p })
                  (create_seek_cond o c step_size) (λ e. inr refl)
                  (λ e b. (o.seek_lock, rw (e1, e2, e) refl, b))
                  (λ e3.
                    attempt-cases Accounted o.seek_cond (λ p. record h3 { seek_cond = p })
                      (λ h. some (some (fresh c step_size), h)) (λ e. inr refl)
                      (λ e b. (o.seek_cond, rw (e1, e2, e3, e) refl, b))
                      (λ e4. (rw (e1, e2, e3, e4) refl, refl, refl, f)))))

  held-eq : (ring : Ring.Held) → IsHeld ring → ring ≡ ring_held
  held-eq ring h = ground (arith, h)

  ring-IsAccounted :
      (r : Option Circbuf × Ring.Held)
      → IsComplete n r
      → Accounted (create_ring o step_size (record nothing_held { context = true }) r)
  unfolding fail
  ring-IsAccounted (none, ring) h = rw h (inl refl)
  ring-IsAccounted (some c, ring) (f, h) =
      rw (held-eq ring h)
        (if-both Accounted o.stream_ok (λ _. locks-IsAccounted c f) (λ _. inr refl))

  -- With an allocator that keeps to its documentation and a size below `SIZE_MAX`, however the calls come
  -- out, `sl_buffer_create2` does one of three things. It returns a stream, all locks and conditions
  -- are initialised, all is held and the context is fresh, over a sound and empty buffer of the
  -- size asked for. Or it returns NULL, and holds either nothing or the block, the conditions and the
  -- locks of a circular buffer whose struct it has freed. Or it destroys what was never initialised:
  -- then the first lock or condition to fail got its memory.
  pub create2-IsAccounted :
      (has_inner : Bool)
      → IsAllocator o.cbuf.alloc
      → n < size_mod - 1
      → Accounted (create2 o has_inner n step_size)
  unfolding create2 fail
  create2-IsAccounted has_inner law small =
      if-both Accounted (not has_inner) (λ _. inl refl)
        (λ _.
          if-both Accounted (n == 0) (λ _. inl refl)
            (λ _.
              if-both Accounted (step_size == 0) (λ _. inl refl)
                (λ _.
                  if-both Accounted o.context_ok
                    (λ _. ring-IsAccounted _ (init-IsComplete o.cbuf n law small))
                    (λ _. inl refl))))
