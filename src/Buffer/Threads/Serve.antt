-- ===== src/Buffer/Threads/Serve.antt =====
-- A seek beside the filler: the request is served.
use libstreamlike.Common.{
  ℕ, zero, suc, ◌≤◌, ◌≡◌, ◌≢◌, ◌⊎◌, inl, inr, refl, sym, ap, subst, arith, true, false, if-both,
  Option, none, some, ◌>>=◌, Ensures, Ensures-map,
}
use libstreamlike.Buffer.{Buffer}
use libstreamlike.Buffer.Machine.{Inner, System, ConAt, FilAt, is_locked, wake_seek}
use libstreamlike.Buffer.Threads.{consumer, con_step, fil_step, fill_steps, step, run}
use libstreamlike.Buffer.Threads.Source.{IsInner}
use libstreamlike.Buffer.Threads.Inv.{ConInv, FilInv, Holds}
use libstreamlike.Buffer.Threads.Alone.{
  IsAlone, taken, enter-IsAlone, head-IsAlone, wait-IsAlone, round-IsAlone, short-IsAlone,
  eof_woken-IsAlone,
}

-- The steps that are left until a request is served, with reading closed; 10 where the filler cannot
-- stand then
abbrev pub to_serve : FilAt → ℕ
to_serve FilAt.start = 10
to_serve FilAt.test = 5
to_serve FilAt.test_seek = 4
to_serve FilAt.ask = 3
to_serve FilAt.seek = 2
to_serve FilAt.serve = 1
to_serve FilAt.enter = 7
to_serve FilAt.head = 7
to_serve FilAt.wait = 9
to_serve FilAt.asleep = 10
to_serve FilAt.gate = 8
to_serve FilAt.round = 8
to_serve FilAt.short = 6
to_serve FilAt.asleep_eof = 10
to_serve FilAt.eof_woken = 6
to_serve FilAt.done = 10

to_serve-positive : (pc : FilAt) → 1 ≤ to_serve pc
to_serve-positive FilAt.start = omega arith
to_serve-positive FilAt.test = omega arith
to_serve-positive FilAt.test_seek = omega arith
to_serve-positive FilAt.ask = omega arith
to_serve-positive FilAt.seek = omega arith
to_serve-positive FilAt.serve = omega arith
to_serve-positive FilAt.enter = omega arith
to_serve-positive FilAt.head = omega arith
to_serve-positive FilAt.wait = omega arith
to_serve-positive FilAt.asleep = omega arith
to_serve-positive FilAt.gate = omega arith
to_serve-positive FilAt.round = omega arith
to_serve-positive FilAt.short = omega arith
to_serve-positive FilAt.asleep_eof = omega arith
to_serve-positive FilAt.eof_woken = omega arith
to_serve-positive FilAt.done = omega arith

-- Where a request is made and reading is closed, the filler neither sleeps nor is about to start.
asked-to_serve :
    (pc : FilAt) (b : Buffer)
    → b.seek_requested ≡ true
    → b.cbuf.rdone ≡ true
    → pc ≢ FilAt.done
    → FilInv pc b
    → to_serve pc ≤ 9
asked-to_serve FilAt.start b e c n (p, f, r, z) = absurd (grind (arith, e, f))
asked-to_serve FilAt.test b e c n h = omega arith
asked-to_serve FilAt.test_seek b e c n h = omega arith
asked-to_serve FilAt.ask b e c n h = omega arith
asked-to_serve FilAt.seek b e c n h = omega arith
asked-to_serve FilAt.serve b e c n h = omega arith
asked-to_serve FilAt.enter b e c n h = omega arith
asked-to_serve FilAt.head b e c n h = omega arith
asked-to_serve FilAt.wait b e c n h = omega arith
asked-to_serve FilAt.asleep b e c n (p, f, r) = absurd (grind (arith, c, r))
asked-to_serve FilAt.gate b e c n h = omega arith
asked-to_serve FilAt.round b e c n h = omega arith
asked-to_serve FilAt.short b e c n h = omega arith
asked-to_serve FilAt.asleep_eof b e c n (p, w, r) = absurd (grind (arith, c, r))
asked-to_serve FilAt.eof_woken b e c n h = omega arith
asked-to_serve FilAt.done b e c n h = absurd (n refl)

-- The request is served, and the consumer is woken.
abbrev IsServed : {W : Type 0} → System W → Type 0
IsServed s = (s.stream.seek_requested ≡ false) × (s.con.pc ≡ ConAt.s_woken)

module _ {W : Type 0} {content : ℕ → ℕ} {at : W → ℕ} (inner : Inner W)
    (i : IsInner inner content at) where
  abbrev IsServing : ℕ → System W → Type 0
  IsServing = IsAlone to_serve true ConAt.s_asleep

  -- A step that does not serve it
  goes_on :
      (n : ℕ) (o : Option (System W))
      → Ensures (IsServing n) o
      → Ensures (λ s. IsServed s ⊎ IsServing n s) o
  goes_on n = Ensures-map (IsServing n) (λ s. IsServed s ⊎ IsServing n s) (λ s h. inr h)

  fil_step-serves :
      {n : ℕ} {s : System W} (pc : FilAt)
      → IsServing (suc n) s
      → to_serve pc ≤ suc n
      → Ensures (λ s. IsServed s ⊎ IsServing n s) (fil_step inner pc s)
  unfolding fil_step
  fil_step-serves FilAt.start h l = absurd (omega (arith, l, h.few))
  fil_step-serves {n} {s} FilAt.test h l =
      inr (taken inner i refl refl h s.stream.cbuf.rdone _ _ h.closed (omega (arith, l)))
  fil_step-serves {n} {s} FilAt.test_seek h l =
      inr (taken inner i refl refl h s.stream.seek_requested _ _ h.flag_eq (omega (arith, l)))
  fil_step-serves {n} {s} FilAt.ask h l =
      inr (taken inner i refl refl h s.stream.seek_requested _ _ h.flag_eq (omega (arith, l)))
  fil_step-serves FilAt.seek h l = inr (record {
    sound = h.sound;
    small = h.small;
    put_le = h.put_le;
    closed = h.closed;
    flag_eq = h.flag_eq;
    con_at = h.con_at;
    left = omega (arith, l);
    few = omega (arith, h.few);
  })
  fil_step-serves {n} {s} FilAt.serve h l =
      if-both (Ensures (λ s. IsServed s ⊎ IsServing n s)) (is_locked s.con.pc)
        (λ t. absurd (grind (arith, t, ap is_locked h.con_at)))
        (λ _. inl (refl, ap wake_seek h.con_at))
  fil_step-serves {n} {s} FilAt.enter h l =
      goes_on n (fil_step inner FilAt.enter s)
        (enter-IsAlone inner i refl refl h (omega (arith, l)))
  fil_step-serves {n} {s} FilAt.head h l =
      goes_on n (fil_step inner FilAt.head s)
        (head-IsAlone inner i refl refl h (omega (arith, l)) (omega (arith, l)))
  fil_step-serves {n} {s} FilAt.wait h l =
      goes_on n (fil_step inner FilAt.wait s) (wait-IsAlone inner i refl refl h (omega (arith, l)))
  fil_step-serves FilAt.asleep h l = absurd (omega (arith, l, h.few))
  fil_step-serves {n} {s} FilAt.gate h l =
      inr (taken inner i refl refl h s.stream.cbuf.rdone _ _ h.closed (omega (arith, l)))
  fil_step-serves {n} {s} FilAt.round h l =
      goes_on n (fil_step inner FilAt.round s)
        (round-IsAlone inner i refl refl h (omega (arith, l)))
  fil_step-serves {n} {s} FilAt.short h l =
      goes_on n (fil_step inner FilAt.short s)
        (short-IsAlone inner i refl refl h (omega (arith, l)))
  fil_step-serves FilAt.asleep_eof h l = absurd (omega (arith, l, h.few))
  fil_step-serves {n} {s} FilAt.eof_woken h l =
      goes_on n (fil_step inner FilAt.eof_woken s)
        (eof_woken-IsAlone inner i refl refl h (omega (arith, l)))
  fil_step-serves FilAt.done h l = absurd (omega (arith, l, h.few))

  -- Within `n` steps of the filler the request is served.
  abbrev IsServedWithin : ℕ → System W → Type 0
  IsServedWithin n s = (k : ℕ) × (k ≤ n) × Ensures IsServed (run inner (fill_steps k) s)

  run-serves : (n : ℕ) (s : System W) → IsServing n s → IsServedWithin n s
  unfolding run step
  run-serves zero s h = absurd (omega (arith, h.left, to_serve-positive s.fil.pc))
  run-serves (suc n) s h =
      let (k, l, served) =
        within (run-serves n) (fil_step inner s.fil.pc s) (fil_step-serves s.fil.pc h h.left) in
      (suc k, omega (arith, l), served)
    where
      within :
          ((s' : System W) → IsServing n s' → IsServedWithin n s')
          → (o : Option (System W)) → Ensures (λ s'. IsServed s' ⊎ IsServing n s') o
          → (k : ℕ) × (k ≤ n) × Ensures IsServed (o >>= λ s'. run inner (fill_steps k) s')
      within ih none h = absurd h
      within ih (some s') (inl served) = (0, omega arith, served)
      within ih (some s') (inr h) = ih s' h

  -- A consumer that is woken once its request is served returns in one step.
  served-returns :
      (s : System W) → IsServed s → Ensures (λ t. t.con.pc ≡ ConAt.idle) (step inner consumer s)
  unfolding step con_step
  served-returns s (q, e) =
      subst (λ pc. Ensures (λ t. t.con.pc ≡ ConAt.idle) (con_step inner pc s)) (sym e)
        (if-both (Ensures (λ t. t.con.pc ≡ ConAt.idle)) s.stream.seek_requested
          (λ t. absurd (grind (arith, t, q))) (λ _. refl))

-- A seek that sleeps while the filler has not ended
pub seek-returns :
    {W : Type 0} (inner : Inner W) (content : ℕ → ℕ) (at : W → ℕ)
    → IsInner inner content at
    → (s : System W) → s.con.pc ≡ ConAt.s_asleep
    → s.fil.pc ≢ FilAt.done
    → Holds content at s
    → (n : ℕ) × (n ≤ 9)
      × Ensures
          (λ s'. Ensures (λ t. t.con.pc ≡ ConAt.idle) (step inner consumer s'))
          (run inner (fill_steps n) s)
seek-returns inner content at i s e d (next, inv) =
    let (q, p, c) = subst (λ pc. ConInv content next pc s.stream s.con) e inv.cons in
    let (n, l, served) = run-serves inner i 9 s (record {
      sound = inv.sound;
      small = inv.shaped.step_small;
      put_le = inv.shaped.written_le;
      closed = c;
      flag_eq = q;
      con_at = e;
      left = asked-to_serve s.fil.pc s.stream q c d inv.fils;
      few = omega arith;
    }) in
    (
      n,
      l,
      Ensures-map IsServed (λ s'. Ensures (λ t. t.con.pc ≡ ConAt.idle) (step inner consumer s'))
          (served-returns inner i) (run inner (fill_steps n) s) served,
    )
