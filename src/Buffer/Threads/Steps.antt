-- ===== src/Buffer/Threads/Steps.antt =====
-- Every step of the two threads, and every call, keeps the invariant.
use libstreamlike.Common.{
  ℕ, ◌+◌, ◌≤◌, ◌<◌, ◌≡◌, ◌∙◌, refl, sym, arith, true, false, if-both, List, [], ◌∷◌, Option,
  Ensures, Ensures-map, Ensures-bind, ℤ, size_mod,
}
use libstreamlike.Memory.{Block}
use libstreamlike.Buffer.{Buffer}
use libstreamlike.Buffer.Machine.{Inner, System, Consumer, ConAt, FilAt, wake_room, wake_eof}
use libstreamlike.Buffer.Threads.{
  Choice, fil_to, con_step, fil_step, is_free, call_read, call_seek, step, run,
}
use libstreamlike.Buffer.Threads.Source.{IsInner}
use libstreamlike.Buffer.Threads.Inv.{ConInv, FilInv, IsSynced, Inv, Holds}
use libstreamlike.Buffer.Threads.PastConsumer.{
  moved-FilInv, woken-FilInv, has_sought-eof, not-sought,
}
use libstreamlike.Buffer.Threads.PastFiller.{woken-ConInv}
use libstreamlike.Buffer.Threads.Consume.{
  con_to-Inv, r_head-Holds, r_ask-Holds, r_wait-Holds, r_round-Holds, r_finish-Holds,
}
use libstreamlike.Buffer.Threads.Seek.{s_lock-Holds, s_close-Holds, s_woken-Holds}
use libstreamlike.Buffer.Threads.Fill.{
  start-Inv, test-Inv, test_seek-Inv, ask-Inv, seek-Inv, short-Inv, eof_woken-Inv, serve-Holds,
}
use libstreamlike.Buffer.Threads.Write2.{enter-Inv, head-Inv, wait-Inv, gate-Inv}
use libstreamlike.Buffer.Threads.Produce.{round-Inv}

-- A call of `sl_buffer_read_cb` gives a block that holds what it asks for.
abbrev pub IsFit : Choice → Type 0
IsFit (Choice.reads buf base want) = (base + want ≤ buf.len) × (want < size_mod)
IsFit _ = Unit

abbrev pub AllFit : List Choice → Type 0
AllFit [] = Unit
AllFit (x ∷ xs) = IsFit x × AllFit xs

module _ {W : Type 0} {content : ℕ → ℕ} {at : W → ℕ} (inner : Inner W)
    (i : IsInner inner content at) where
  con_step-Holds :
      {next : ℕ} {s : System W} (pc : ConAt)
      → Inv content at next s
      → ConInv content next pc s.stream s.con
      → Ensures (Holds content at) (con_step inner pc s)
  unfolding con_step
  con_step-Holds {next} ConAt.idle inv h = (next, inv)
  con_step-Holds {next} ConAt.returned inv h = (next, inv)
  con_step-Holds ConAt.r_head inv h = r_head-Holds inner inv h
  con_step-Holds ConAt.r_ask inv h = r_ask-Holds inner inv h
  con_step-Holds ConAt.r_wait inv h = r_wait-Holds inner inv h
  con_step-Holds {next} ConAt.r_asleep inv h = (next, inv)
  con_step-Holds ConAt.r_round inv h = r_round-Holds inner inv h
  con_step-Holds ConAt.r_finish inv h = r_finish-Holds inner inv h
  con_step-Holds ConAt.s_lock inv h = s_lock-Holds inner i inv h
  con_step-Holds ConAt.s_close inv h = s_close-Holds inner i inv h
  con_step-Holds {next} ConAt.s_asleep inv h = (next, inv)
  con_step-Holds ConAt.s_woken inv h = s_woken-Holds inner i inv h

  kept :
      (next : ℕ) (o : Option (System W))
      → Ensures (Inv content at next) o
      → Ensures (Holds content at) o
  kept next = Ensures-map (Inv content at next) (Holds content at) (λ s h. (next, h))

  pub fil_step-Holds :
      {next : ℕ} {s : System W} (pc : FilAt)
      → Inv content at next s
      → FilInv pc s.stream
      → IsSynced next (at s.world) pc s.stream
      → Ensures (Holds content at) (fil_step inner pc s)
  unfolding fil_step
  fil_step-Holds {next} {s} FilAt.start inv h y =
      kept next (fil_step inner FilAt.start s) (start-Inv inner i inv (y.behind refl) h)
  fil_step-Holds {next} {s} FilAt.test inv h y =
      kept next (fil_step inner FilAt.test s) (test-Inv inner i inv (y.behind refl) h)
  fil_step-Holds {next} {s} FilAt.test_seek inv h y =
      kept next (fil_step inner FilAt.test_seek s) (test_seek-Inv inner i inv (y.behind refl) h)
  fil_step-Holds {next} {s} FilAt.ask inv h y =
      kept next (fil_step inner FilAt.ask s) (ask-Inv inner i inv (y.behind refl) h)
  fil_step-Holds {next} {s} FilAt.seek inv h y =
      kept next (fil_step inner FilAt.seek s) (seek-Inv inner i inv (y.behind refl) h)
  fil_step-Holds FilAt.serve inv h y = serve-Holds inner i inv h y
  fil_step-Holds {next} {s} FilAt.enter inv h y =
      kept next (fil_step inner FilAt.enter s) (enter-Inv inner i inv (y.behind refl) h)
  fil_step-Holds {next} {s} FilAt.head inv h y =
      kept next (fil_step inner FilAt.head s) (head-Inv inner i inv (y.behind refl) h)
  fil_step-Holds {next} {s} FilAt.wait inv h y =
      kept next (fil_step inner FilAt.wait s) (wait-Inv inner i inv (y.behind refl) h)
  fil_step-Holds {next} FilAt.asleep inv h y = (next, inv)
  fil_step-Holds {next} {s} FilAt.gate inv h y =
      kept next (fil_step inner FilAt.gate s) (gate-Inv inner i inv (y.behind refl) h)
  fil_step-Holds {next} {s} FilAt.round inv h y =
      kept next (fil_step inner FilAt.round s) (round-Inv inner i inv (y.behind refl) h)
  fil_step-Holds {next} {s} FilAt.short inv h y =
      kept next (fil_step inner FilAt.short s) (short-Inv inner i inv (y.behind refl) h)
  fil_step-Holds {next} FilAt.asleep_eof inv h y = (next, inv)
  fil_step-Holds {next} {s} FilAt.eof_woken inv h y =
      kept next (fil_step inner FilAt.eof_woken s) (eof_woken-Inv inner i inv (y.behind refl) h)
  fil_step-Holds {next} FilAt.done inv h y = (next, inv)

  fil_wakes-Inv :
      {next : ℕ} {s : System W}
      → Inv content at next s
      → Inv content at next (fil_to s (wake_eof (wake_room s.fil.pc)))
  fil_wakes-Inv {s} inv = record {
    sound = inv.sound;
    shaped = inv.shaped;
    queued = inv.queued;
    cons = inv.cons;
    fils = woken-FilInv s.fil.pc s.stream inv.fils;
    sync = record {
      behind = λ z. inv.sync.behind (sym (has_sought-eof s.fil.pc s.stream.seek_result) ∙ z);
      landed = λ z. inv.sync.landed (sym (has_sought-eof s.fil.pc s.stream.seek_result) ∙ z);
    };
  }

  -- Between two calls the consumer knows that no seek is requested, and the offset of the next byte.
  pub free-pos :
      {next : ℕ} (pc : ConAt) (b : Buffer) (con : Consumer)
      → is_free pc ≡ true
      → ConInv content next pc b con
      → (b.seek_requested ≡ false) × (b.pos ≡ ℤ.pos next)
  free-pos ConAt.idle b con e h = h
  free-pos ConAt.returned b con e h = (h.0, h.1)
  free-pos ConAt.r_head b con e h = cc
  free-pos ConAt.r_ask b con e h = cc
  free-pos ConAt.r_wait b con e h = cc
  free-pos ConAt.r_asleep b con e h = cc
  free-pos ConAt.r_round b con e h = cc
  free-pos ConAt.r_finish b con e h = cc
  free-pos ConAt.s_lock b con e h = cc
  free-pos ConAt.s_close b con e h = cc
  free-pos ConAt.s_asleep b con e h = cc
  free-pos ConAt.s_woken b con e h = cc

  call_read-Inv :
      {next : ℕ} {s : System W} (buf : Block) (base want : ℕ)
      → (base + want ≤ buf.len) × (want < size_mod)
      → is_free s.con.pc ≡ true
      → Inv content at next s
      → Inv content at next (call_read buf base want s)
  call_read-Inv {next} {s} buf base want f e inv =
      let (q, p) = free-pos s.con.pc s.stream s.con e inv.cons in
      record {
        sound = inv.sound;
        shaped = record {
          room = f.0;
          small = f.1;
          got_le = omega arith;
          step_small = inv.shaped.step_small;
          written_le = inv.shaped.written_le;
          from_start = inv.shaped.from_start;
        };
        queued = inv.queued;
        cons = (q, (next, p, (omega arith, refl)));
        fils = inv.fils;
        sync = inv.sync;
      }

  call_seek-Inv :
      {next : ℕ} {s : System W} (offset : ℤ)
      → is_free s.con.pc ≡ true
      → Inv content at next s
      → Inv content at next (call_seek offset s)
  call_seek-Inv {next} {s} offset e inv =
      let (q, p) = free-pos s.con.pc s.stream s.con e inv.cons in
      let n = not-sought s.fil.pc s.stream inv.fils q in
      record {
        sound = inv.sound;
        shaped = record {
          room = inv.shaped.room;
          small = inv.shaped.small;
          got_le = inv.shaped.got_le;
          step_small = inv.shaped.step_small;
          written_le = inv.shaped.written_le;
          from_start = refl;
        };
        queued = inv.queued;
        cons = (q, p);
        fils = moved-FilInv s.fil.pc s.stream _ _ _ _ inv.fils;
        sync = record { behind = inv.sync.behind; landed = λ t. absurd (grind (arith, n, t)) };
      }

  step-Holds :
      {s : System W} (x : Choice)
      → IsFit x
      → Holds content at s
      → Ensures (Holds content at) (step inner x s)
  unfolding step
  step-Holds {s} Choice.consumer f (next, inv) = con_step-Holds s.con.pc inv inv.cons
  step-Holds {s} Choice.filler f (next, inv) = fil_step-Holds s.fil.pc inv inv.fils inv.sync
  step-Holds {s} Choice.con_wakes f (next, inv) =
      (next, con_to-Inv inner inv _ (woken-ConInv content next s.con.pc s.stream s.con _ inv.cons))
  step-Holds Choice.fil_wakes f (next, inv) = (next, fil_wakes-Inv inv)
  step-Holds {s} (Choice.reads buf base want) f (next, inv) =
      if-both (Holds content at) (is_free s.con.pc)
        (λ e. (next, call_read-Inv buf base want f e inv)) (λ _. (next, inv))
  step-Holds {s} (Choice.seeks offset) f (next, inv) =
      if-both (Holds content at) (is_free s.con.pc) (λ e. (next, call_seek-Inv offset e inv))
        (λ _. (next, inv))

  pub run-Holds :
      (xs : List Choice) {s : System W}
      → AllFit xs
      → Holds content at s
      → Ensures (Holds content at) (run inner xs s)
  unfolding run
  run-Holds [] f h = h
  run-Holds (x ∷ xs) {s} f h =
      Ensures-bind (Holds content at) (Holds content at) (run inner xs)
        (λ s' h'. run-Holds xs {s = s'} f.1 h') (step inner x s) (step-Holds x f.0 h)
