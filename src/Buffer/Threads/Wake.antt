-- ===== src/Buffer/Threads/Wake.antt =====
-- A read that sleeps beside the filler: it is woken.
use libstreamlike.Common.{
  ℕ, zero, suc, ◌≤◌, ◌<◌, ◌≡◌, ◌⊎◌, inl, inr, ap, subst, arith, Bool, Bool-cases, true, false, not,
  ltb, ◌&&◌, if-both, if-true, if-false, if◌then◌else◌, Option, none, some, ◌>>=◌, Ensures,
}
use libstreamlike.Circbuf.State.{IsCircbuf}
use libstreamlike.Circbuf.Threads.{no_room}
use libstreamlike.Buffer.{Buffer}
use libstreamlike.Buffer.Machine.{Inner, System, ConAt, FilAt, is_locked, wake_data}
use libstreamlike.Buffer.Threads.{fil_to, fil_step, fill_steps, step, run}
use libstreamlike.Buffer.Threads.Source.{IsInner}
use libstreamlike.Buffer.Threads.Inv.{ConInv, FilInv, IsClosed, Inv, Holds}
use libstreamlike.Buffer.Threads.Round.{round-Ensures}
use libstreamlike.Buffer.Threads.Write2.{no_room-full}
use libstreamlike.Buffer.Threads.Promise.{not_both}
use libstreamlike.Buffer.Threads.Steps.{fil_step-Holds}

-- The steps that are left until a read that sleeps is woken, of a filler that has written `written` of a
-- step of `size` bytes; 9 where it cannot stand then
abbrev pub to_wake : FilAt → ℕ → ℕ → ℕ
to_wake FilAt.start written size = 8
to_wake FilAt.test written size = 7
to_wake FilAt.ask written size = 6
to_wake FilAt.enter written size = 5
to_wake FilAt.head written size = if ltb written size then 4 else 8
to_wake FilAt.wait written size = 3
to_wake FilAt.gate written size = 2
to_wake FilAt.round written size = 1
to_wake FilAt.short written size = 1
to_wake _ written size = 9

abbrev left_of : {W : Type 0} → System W → ℕ
left_of s = to_wake s.fil.pc s.fil.written s.stream.step_size

-- The read still sleeps, with at most `n` steps left.
record IsSleeping {W : Type 0} (n : ℕ) (s : System W) : Type 0 where
  asleep : s.con.pc ≡ ConAt.r_asleep
  positive : 0 < s.stream.step_size
  left : left_of s ≤ n

-- The read is woken, or the filler is nearer to that.
abbrev IsNearer : {W : Type 0} → ℕ → System W → Type 0
IsNearer n s = (s.con.pc ≡ ConAt.r_wait) ⊎ IsSleeping n s

module _ {W : Type 0} {content : ℕ → ℕ} {at : W → ℕ} (inner : Inner W)
    (i : IsInner inner content at) {next : ℕ} {n : ℕ} {s : System W} (inv : Inv content at next s)
    (asleep : s.con.pc ≡ ConAt.r_asleep) (positive : 0 < s.stream.step_size) (few : n ≤ 7)
    (q : s.stream.seek_requested ≡ false) (empty : s.stream.cbuf.roff ≡ s.stream.cbuf.woff)
    (writes : s.stream.cbuf.wdone ≡ false) where
  nearer : (pc : FilAt) → to_wake pc s.fil.written s.stream.step_size ≤ n → IsNearer n (fil_to s pc)
  nearer pc l = inr (record { asleep = asleep; positive = positive; left = l })

  passed :
      (b : Bool) (p q : FilAt)
      → b ≡ false
      → to_wake q s.fil.written s.stream.step_size ≤ n
      → IsNearer n (fil_to s (if b then p else q))
  passed true p q e l = absurd (grind (arith, e))
  passed false p q e l = nearer q l

  unlocked : is_locked s.con.pc ≡ false
  unlocked = ap is_locked asleep

  -- Reading is open.
  read_open : IsClosed s.stream → s.stream.cbuf.rdone ≡ false
  read_open h = elim (Bool-cases s.stream.cbuf.rdone) [
    | inl e ↦ elim (h e) [
      | inl r ↦ absurd (grind (arith, q, r))
      | inr (z, w) ↦ absurd (grind (arith, writes, w))
    ]
    | inr e ↦ e
  ]

  room : no_room s.stream.cbuf ≡ false
  room = elim (Bool-cases (no_room s.stream.cbuf)) [
    | inl e ↦ absurd (not_both empty (no_room-full s.stream.cbuf inv.sound e) inv.sound.valid)
    | inr e ↦ e
  ]

  head-IsNearer :
      to_wake FilAt.head s.fil.written s.stream.step_size ≤ suc n
      → Ensures (IsNearer n) (fil_step inner FilAt.head s)
  unfolding fil_step
  head-IsNearer l = elim (Bool-cases (ltb s.fil.written s.stream.step_size)) [
    | inl e ↦
        let k : 4 ≤ suc n = subst (λ x. x ≤ suc n) (if-true _ _ _ e) l in
        if-both (λ pc. IsNearer n (fil_to s pc))
          (ltb s.fil.written s.stream.step_size && not s.stream.cbuf.rdone && not s.fil.eof)
          (λ _. nearer FilAt.wait (omega (arith, k)))
          (λ _.
            if-both (λ pc. IsNearer n (fil_to s pc)) (ltb s.fil.written s.stream.step_size)
              (λ _. nearer FilAt.short (omega (arith, k))) (λ f. absurd (grind (arith, e, f))))
    | inr e ↦
        let k : 8 ≤ suc n = subst (λ x. x ≤ suc n) (if-false _ _ _ e) l in
        if-both (λ pc. IsNearer n (fil_to s pc))
          (ltb s.fil.written s.stream.step_size && not s.stream.cbuf.rdone && not s.fil.eof)
          (λ f. absurd (ground (arith, e, f)))
          (λ _.
            if-both (λ pc. IsNearer n (fil_to s pc)) (ltb s.fil.written s.stream.step_size)
              (λ f. absurd (grind (arith, e, f))) (λ _. nearer FilAt.test (omega (arith, k))))
  ]

  fil_step-IsNearer :
      (pc : FilAt)
      → FilInv pc s.stream
      → to_wake pc s.fil.written s.stream.step_size ≤ suc n
      → Ensures (IsNearer n) (fil_step inner pc s)
  unfolding fil_step
  fil_step-IsNearer FilAt.start h l =
      if-both (Ensures (IsNearer n)) (is_locked s.con.pc) (λ t. absurd (grind (arith, t, unlocked)))
        (λ _. inr (record { asleep = asleep; positive = positive; left = omega (arith, l) }))
  fil_step-IsNearer FilAt.test h l =
      passed s.stream.cbuf.rdone _ _ (read_open h.1) (omega (arith, l))
  fil_step-IsNearer FilAt.test_seek h l = absurd (omega (arith, l, few))
  fil_step-IsNearer FilAt.ask h l = passed s.stream.seek_requested _ _ q (omega (arith, l))
  fil_step-IsNearer FilAt.seek h l = absurd (omega (arith, l, few))
  fil_step-IsNearer FilAt.serve h l = absurd (omega (arith, l, few))
  fil_step-IsNearer FilAt.enter h l = inr (record {
    asleep = asleep;
    positive = positive;
    left =
        if-both (λ pc. to_wake pc 0 s.stream.step_size ≤ n) s.stream.cbuf.rdone
          (λ _. omega (arith, l)) (λ _. ground (arith, l, positive));
  })
  fil_step-IsNearer FilAt.head h l = head-IsNearer l
  fil_step-IsNearer FilAt.wait h l =
      passed (no_room s.stream.cbuf && not s.stream.cbuf.rdone) _ _ (ground (arith, room))
        (omega (arith, l))
  fil_step-IsNearer FilAt.asleep h l = absurd (omega (arith, l, few))
  fil_step-IsNearer FilAt.gate h l =
      passed s.stream.cbuf.rdone _ _ (read_open (λ r. inl (h.1 r))) (omega (arith, l))
  fil_step-IsNearer FilAt.round h l =
      round-Ensures inner content at i s inv.sound inv.shaped.written_le inv.shaped.step_small
        (IsNearer n) (λ r t. inl (ap wake_data asleep))
  fil_step-IsNearer FilAt.short h l =
      if-both (Ensures (IsNearer n)) (is_locked s.con.pc) (λ t. absurd (grind (arith, t, unlocked)))
        (λ _. inl (ap wake_data asleep))
  fil_step-IsNearer FilAt.asleep_eof h l = absurd (omega (arith, l, few))
  fil_step-IsNearer FilAt.eof_woken h l = absurd (omega (arith, l, few))
  fil_step-IsNearer FilAt.done h l = absurd (omega (arith, l, few))

to_wake-positive : (pc : FilAt) (written size : ℕ) → 1 ≤ to_wake pc written size
to_wake-positive FilAt.start written size = omega arith
to_wake-positive FilAt.test written size = omega arith
to_wake-positive FilAt.test_seek written size = omega arith
to_wake-positive FilAt.ask written size = omega arith
to_wake-positive FilAt.seek written size = omega arith
to_wake-positive FilAt.serve written size = omega arith
to_wake-positive FilAt.enter written size = omega arith
to_wake-positive FilAt.head written size = ground arith
to_wake-positive FilAt.wait written size = omega arith
to_wake-positive FilAt.asleep written size = omega arith
to_wake-positive FilAt.gate written size = omega arith
to_wake-positive FilAt.round written size = omega arith
to_wake-positive FilAt.short written size = omega arith
to_wake-positive FilAt.asleep_eof written size = omega arith
to_wake-positive FilAt.eof_woken written size = omega arith
to_wake-positive FilAt.done written size = omega arith

-- Where the filler can stand beside a read that sleeps
asleep-to_wake :
    (pc : FilAt) (b : Buffer) (written size : ℕ)
    → IsCircbuf b.cbuf
    → b.seek_requested ≡ false
    → b.cbuf.roff ≡ b.cbuf.woff
    → b.cbuf.wdone ≡ false
    → FilInv pc b
    → to_wake pc written size ≤ 8
asleep-to_wake FilAt.start b written size v q e d h = omega arith
asleep-to_wake FilAt.test b written size v q e d h = omega arith
asleep-to_wake FilAt.test_seek b written size v q e d (p, h, r) = elim (h r) [
  | inl f ↦ absurd (grind (arith, q, f))
  | inr (z, w) ↦ absurd (grind (arith, d, w))
]
asleep-to_wake FilAt.ask b written size v q e d h = omega arith
asleep-to_wake FilAt.seek b written size v q e d h = absurd (grind (arith, q, h.1))
asleep-to_wake FilAt.serve b written size v q e d h = absurd (grind (arith, q, h.1))
asleep-to_wake FilAt.enter b written size v q e d h = omega arith
asleep-to_wake FilAt.head b written size v q e d h = ground arith
asleep-to_wake FilAt.wait b written size v q e d h = omega arith
asleep-to_wake FilAt.asleep b written size v q e d (p, f, r) = absurd (not_both e f v.valid)
asleep-to_wake FilAt.gate b written size v q e d h = omega arith
asleep-to_wake FilAt.round b written size v q e d h = omega arith
asleep-to_wake FilAt.short b written size v q e d h = omega arith
asleep-to_wake FilAt.asleep_eof b written size v q e d (p, w, r) = absurd (grind (arith, d, w))
asleep-to_wake FilAt.eof_woken b written size v q e d (p, w, r) = absurd (grind (arith, d, w))
asleep-to_wake FilAt.done b written size v q e d (p, z, w, r) = absurd (grind (arith, d, w))

module _ {W : Type 0} {content : ℕ → ℕ} {at : W → ℕ} (inner : Inner W)
    (i : IsInner inner content at) where
  -- Within `n` steps of the filler the read is woken.
  abbrev IsWokenWithin : ℕ → System W → Type 0
  IsWokenWithin n s =
      (k : ℕ) × (k ≤ n) × Ensures (λ s'. s'.con.pc ≡ ConAt.r_wait) (run inner (fill_steps k) s)

  run-wakes :
      (n : ℕ) (s : System W) → n ≤ 8 → Holds content at s → IsSleeping n s → IsWokenWithin n s
  unfolding run step
  run-wakes zero s few h a =
      absurd (omega (arith, a.left, to_wake-positive s.fil.pc s.fil.written s.stream.step_size))
  run-wakes (suc n) s few (next, inv) a =
      let ((q, _), e, d) = subst (λ pc. ConInv content next pc s.stream s.con) a.asleep inv.cons in
      let (k, l, woken) =
        within (λ s'. run-wakes n s' (omega (arith, few))) (fil_step inner s.fil.pc s)
          (fil_step-Holds inner i s.fil.pc inv inv.fils inv.sync)
          (fil_step-IsNearer inner i inv a.asleep a.positive (omega (arith, few)) q e d s.fil.pc
            inv.fils a.left) in
      (suc k, omega (arith, l), woken)
    where
      within :
          ((s' : System W) → Holds content at s' → IsSleeping n s' → IsWokenWithin n s')
          → (o : Option (System W)) → Ensures (Holds content at) o
          → Ensures (IsNearer n) o
          → (k : ℕ) × (k ≤ n)
            × Ensures (λ s'. s'.con.pc ≡ ConAt.r_wait) (o >>= λ s'. run inner (fill_steps k) s')
      within ih none h r = absurd h
      within ih (some s') h (inl woken) = (0, omega arith, woken)
      within ih (some s') h (inr r) = ih s' h r

-- A read that sleeps
pub read-wakes :
    {W : Type 0} (inner : Inner W) (content : ℕ → ℕ) (at : W → ℕ)
    → IsInner inner content at
    → (s : System W) → s.con.pc ≡ ConAt.r_asleep
    → 0 < s.stream.step_size
    → Holds content at s
    → (n : ℕ) × (n ≤ 8) × Ensures (λ s'. s'.con.pc ≡ ConAt.r_wait) (run inner (fill_steps n) s)
read-wakes inner content at i s a positive (next, inv) =
    let ((q, _), e, d) = subst (λ pc. ConInv content next pc s.stream s.con) a inv.cons in
    run-wakes inner i 8 s (omega arith) (next, inv)
      (record {
        asleep = a;
        positive = positive;
        left =
            asleep-to_wake s.fil.pc s.stream s.fil.written s.stream.step_size inv.sound q e d
              inv.fils;
      })
