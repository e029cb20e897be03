-- ===== src/Buffer/Threads/Join.antt =====
-- `sl_buffer_destroy` beside the filler: the thread that it joins ends.
use libstreamlike.Common.{
  ℕ, zero, suc, ◌≤◌, ◌≡◌, refl, sym, subst, arith, true, false, Ensures, Ensures-bind,
}
use libstreamlike.Buffer.{Buffer}
use libstreamlike.Buffer.Machine.{
  Inner, System, ConAt, FilAt, is_locked, wake_data, wake_room, wake_eof,
}
use libstreamlike.Buffer.Threads.{fil_step, fill_steps, close_filler, is_free, step, run}
use libstreamlike.Buffer.Threads.Source.{IsInner}
use libstreamlike.Buffer.Threads.Inv.{FilInv, Holds}
use libstreamlike.Buffer.Threads.Alone.{
  IsAlone, taken, passed, start-IsAlone, enter-IsAlone, head-IsAlone, wait-IsAlone, round-IsAlone,
  short-IsAlone, eof_woken-IsAlone, done-IsAlone,
}
use libstreamlike.Buffer.Threads.Seek.{close_read-eq}
use libstreamlike.Buffer.Threads.Steps.{free-pos}

-- The steps that are left to the end of the thread once reading is closed and no seek is requested;
-- 10 where the filler cannot stand then
abbrev pub to_end : FilAt → ℕ
to_end FilAt.start = 3
to_end FilAt.test = 2
to_end FilAt.test_seek = 1
to_end FilAt.ask = 5
to_end FilAt.seek = 10
to_end FilAt.serve = 10
to_end FilAt.enter = 4
to_end FilAt.head = 4
to_end FilAt.wait = 6
to_end FilAt.asleep = 10
to_end FilAt.gate = 5
to_end FilAt.round = 5
to_end FilAt.short = 3
to_end FilAt.asleep_eof = 10
to_end FilAt.eof_woken = 3
to_end FilAt.done = 0

to_end-done : (pc : FilAt) → to_end pc ≡ 0 → pc ≡ FilAt.done
to_end-done FilAt.start e = absurd (omega (arith, e))
to_end-done FilAt.test e = absurd (omega (arith, e))
to_end-done FilAt.test_seek e = absurd (omega (arith, e))
to_end-done FilAt.ask e = absurd (omega (arith, e))
to_end-done FilAt.seek e = absurd (omega (arith, e))
to_end-done FilAt.serve e = absurd (omega (arith, e))
to_end-done FilAt.enter e = absurd (omega (arith, e))
to_end-done FilAt.head e = absurd (omega (arith, e))
to_end-done FilAt.wait e = absurd (omega (arith, e))
to_end-done FilAt.asleep e = absurd (omega (arith, e))
to_end-done FilAt.gate e = absurd (omega (arith, e))
to_end-done FilAt.round e = absurd (omega (arith, e))
to_end-done FilAt.short e = absurd (omega (arith, e))
to_end-done FilAt.asleep_eof e = absurd (omega (arith, e))
to_end-done FilAt.eof_woken e = absurd (omega (arith, e))
to_end-done FilAt.done e = refl

module _ {W : Type 0} {content : ℕ → ℕ} {at : W → ℕ} (inner : Inner W)
    (i : IsInner inner content at) {con : ConAt} (u : is_locked con ≡ false)
    (w : wake_data con ≡ con) where
  fil_step-ends :
      {n : ℕ} {s : System W} (pc : FilAt)
      → IsAlone to_end false con (suc n) s
      → pc ≡ s.fil.pc
      → to_end pc ≤ suc n
      → Ensures (IsAlone to_end false con n) (fil_step inner pc s)
  unfolding fil_step
  fil_step-ends FilAt.start h e l = start-IsAlone inner i u w h (omega (arith, l))
  fil_step-ends {s} FilAt.test h e l =
      taken inner i u w h s.stream.cbuf.rdone _ _ h.closed (omega (arith, l))
  fil_step-ends {s} FilAt.test_seek h e l =
      passed inner i u w h s.stream.seek_requested _ _ h.flag_eq (omega (arith, l))
  fil_step-ends {s} FilAt.ask h e l =
      passed inner i u w h s.stream.seek_requested _ _ h.flag_eq (omega (arith, l))
  fil_step-ends FilAt.seek h e l = absurd (omega (arith, l, h.few))
  fil_step-ends FilAt.serve h e l = absurd (omega (arith, l, h.few))
  fil_step-ends FilAt.enter h e l = enter-IsAlone inner i u w h (omega (arith, l))
  fil_step-ends FilAt.head h e l = head-IsAlone inner i u w h (omega (arith, l)) (omega (arith, l))
  fil_step-ends FilAt.wait h e l = wait-IsAlone inner i u w h (omega (arith, l))
  fil_step-ends FilAt.asleep h e l = absurd (omega (arith, l, h.few))
  fil_step-ends {s} FilAt.gate h e l =
      taken inner i u w h s.stream.cbuf.rdone _ _ h.closed (omega (arith, l))
  fil_step-ends FilAt.round h e l = round-IsAlone inner i u w h (omega (arith, l))
  fil_step-ends FilAt.short h e l = short-IsAlone inner i u w h (omega (arith, l))
  fil_step-ends FilAt.asleep_eof h e l = absurd (omega (arith, l, h.few))
  fil_step-ends FilAt.eof_woken h e l = eof_woken-IsAlone inner i u w h (omega (arith, l))
  fil_step-ends FilAt.done h e l = done-IsAlone inner i u w h e (omega (arith, l))

  run-ends :
      (n : ℕ) (s : System W)
      → IsAlone to_end false con n s
      → Ensures (λ s'. s'.fil.pc ≡ FilAt.done) (run inner (fill_steps n) s)
  unfolding run step
  run-ends zero s h = to_end-done s.fil.pc (omega (arith, h.left))
  run-ends (suc n) s h =
      Ensures-bind (IsAlone to_end false con n) (λ s'. s'.fil.pc ≡ FilAt.done)
        (run inner (fill_steps n)) (run-ends n) (fil_step inner s.fil.pc s)
        (fil_step-ends s.fil.pc h refl h.left)

free-unlocked : (pc : ConAt) → is_free pc ≡ true → is_locked pc ≡ false
free-unlocked ConAt.idle e = refl
free-unlocked ConAt.returned e = refl
free-unlocked ConAt.r_head e = refl
free-unlocked ConAt.r_ask e = refl
free-unlocked ConAt.r_wait e = refl
free-unlocked ConAt.r_asleep e = refl
free-unlocked ConAt.r_round e = refl
free-unlocked ConAt.r_finish e = refl
free-unlocked ConAt.s_lock e = refl
free-unlocked ConAt.s_close e = cc
free-unlocked ConAt.s_asleep e = refl
free-unlocked ConAt.s_woken e = refl

free-stays : (pc : ConAt) → is_free pc ≡ true → wake_data pc ≡ pc
free-stays ConAt.idle e = refl
free-stays ConAt.returned e = refl
free-stays ConAt.r_head e = refl
free-stays ConAt.r_ask e = refl
free-stays ConAt.r_wait e = refl
free-stays ConAt.r_asleep e = cc
free-stays ConAt.r_round e = refl
free-stays ConAt.r_finish e = refl
free-stays ConAt.s_lock e = refl
free-stays ConAt.s_close e = refl
free-stays ConAt.s_asleep e = refl
free-stays ConAt.s_woken e = refl

-- Where no seek is requested, the filler that is woken stands at most six steps from its end.
woken-to_end :
    (pc : FilAt) (b : Buffer)
    → b.seek_requested ≡ false
    → FilInv pc b
    → to_end (wake_eof (wake_room pc)) ≤ 6
woken-to_end FilAt.start b e h = omega arith
woken-to_end FilAt.test b e h = omega arith
woken-to_end FilAt.test_seek b e h = omega arith
woken-to_end FilAt.ask b e h = omega arith
woken-to_end FilAt.seek b e h = absurd (grind (arith, e, h.1))
woken-to_end FilAt.serve b e h = absurd (grind (arith, e, h.1))
woken-to_end FilAt.enter b e h = omega arith
woken-to_end FilAt.head b e h = omega arith
woken-to_end FilAt.wait b e h = omega arith
woken-to_end FilAt.asleep b e h = omega arith
woken-to_end FilAt.gate b e h = omega arith
woken-to_end FilAt.round b e h = omega arith
woken-to_end FilAt.short b e h = omega arith
woken-to_end FilAt.asleep_eof b e h = omega arith
woken-to_end FilAt.eof_woken b e h = omega arith
woken-to_end FilAt.done b e h = omega arith

-- Between two calls, `sl_buffer_destroy` brings the filler to its end.
pub close_filler-ends :
    {W : Type 0} (inner : Inner W) (content : ℕ → ℕ) (at : W → ℕ)
    → IsInner inner content at
    → (s : System W) → is_free s.con.pc ≡ true
    → Holds content at s
    → Ensures (λ s'. s'.fil.pc ≡ FilAt.done) (run inner (fill_steps 6) (close_filler s))
close_filler-ends inner content at i s e (next, inv) =
    let (q, p) = free-pos inner i s.con.pc s.stream s.con e inv.cons in
    subst
      (λ c.
        Ensures (λ s'. s'.fil.pc ≡ FilAt.done)
          (run inner (fill_steps 6) (record s {
            stream = record s.stream { cbuf = c };
            fil = record s.fil { pc = wake_eof (wake_room s.fil.pc) };
          })))
      (sym (close_read-eq s.stream.cbuf))
      (run-ends inner i (free-unlocked s.con.pc e) (free-stays s.con.pc e) 6 _ (record {
        sound = record { whole = inv.sound.whole; valid = inv.sound.valid };
        small = inv.shaped.step_small;
        put_le = inv.shaped.written_le;
        closed = refl;
        flag_eq = q;
        con_at = refl;
        left = woken-to_end s.fil.pc s.stream q inv.fils;
        few = omega arith;
      }))
