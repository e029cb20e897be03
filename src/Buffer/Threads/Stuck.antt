-- ===== src/Buffer/Threads/Stuck.antt =====
-- What becomes of a seek once the filler's thread has ended.
use libstreamlike.Common.{
  ◌≡◌, refl, arith, Bool, true, false, if-both, subst, sym, List, [], ◌∷◌, Ensures, Ensures-bind,
}
use libstreamlike.Buffer.Machine.{
  Inner, System, ConAt, FilAt, wake_data, wake_seek, wake_room, wake_eof,
}
use libstreamlike.Buffer.Threads.{Choice, con_step, fil_step, is_free, step, run}

-- The consumer is in `sl_buffer_seek_cb`, behind its request.
abbrev pub is_seeking : ConAt → Bool
is_seeking ConAt.s_close = true
is_seeking ConAt.s_asleep = true
is_seeking ConAt.s_woken = true
is_seeking _ = false

-- The filler's thread has ended, and the consumer waits for it to serve a request.
pub record IsStuck {W : Type 0} (s : System W) : Type 0 where
  pub ended : s.fil.pc ≡ FilAt.done
  pub asked : s.stream.seek_requested ≡ true
  pub seeking : is_seeking s.con.pc ≡ true

woken-seeking : (pc : ConAt) → is_seeking pc ≡ true → is_seeking (wake_seek (wake_data pc)) ≡ true
woken-seeking ConAt.idle e = e
woken-seeking ConAt.returned e = e
woken-seeking ConAt.r_head e = e
woken-seeking ConAt.r_ask e = e
woken-seeking ConAt.r_wait e = e
woken-seeking ConAt.r_asleep e = e
woken-seeking ConAt.r_round e = e
woken-seeking ConAt.r_finish e = e
woken-seeking ConAt.s_lock e = e
woken-seeking ConAt.s_close e = e
woken-seeking ConAt.s_asleep e = refl
woken-seeking ConAt.s_woken e = e

seeking-busy : (pc : ConAt) → is_seeking pc ≡ true → is_free pc ≡ false
seeking-busy ConAt.idle e = cc
seeking-busy ConAt.returned e = cc
seeking-busy ConAt.r_head e = refl
seeking-busy ConAt.r_ask e = refl
seeking-busy ConAt.r_wait e = refl
seeking-busy ConAt.r_asleep e = refl
seeking-busy ConAt.r_round e = refl
seeking-busy ConAt.r_finish e = refl
seeking-busy ConAt.s_lock e = refl
seeking-busy ConAt.s_close e = refl
seeking-busy ConAt.s_asleep e = refl
seeking-busy ConAt.s_woken e = refl

module _ {W : Type 0} (inner : Inner W) where
  con_step-IsStuck :
      (pc : ConAt) (s : System W)
      → is_seeking pc ≡ true
      → IsStuck s
      → Ensures IsStuck (con_step inner pc s)
  unfolding con_step
  con_step-IsStuck ConAt.idle s e h = cc
  con_step-IsStuck ConAt.returned s e h = cc
  con_step-IsStuck ConAt.r_head s e h = cc
  con_step-IsStuck ConAt.r_ask s e h = cc
  con_step-IsStuck ConAt.r_wait s e h = cc
  con_step-IsStuck ConAt.r_asleep s e h = cc
  con_step-IsStuck ConAt.r_round s e h = cc
  con_step-IsStuck ConAt.r_finish s e h = cc
  con_step-IsStuck ConAt.s_lock s e h = cc
  con_step-IsStuck ConAt.s_close s e h = record {
    ended = subst (λ pc. wake_eof (wake_room pc) ≡ FilAt.done) (sym h.ended) refl;
    asked = h.asked;
    seeking = if-both (λ pc. is_seeking pc ≡ true) s.stream.seek_requested (λ _. refl) (λ _. refl);
  }
  con_step-IsStuck ConAt.s_asleep s e h = h
  con_step-IsStuck ConAt.s_woken s e h =
      if-both (Ensures IsStuck) s.stream.seek_requested
        (λ _. record { ended = h.ended; asked = h.asked; seeking = refl })
        (λ f. absurd (grind (arith, f, h.asked)))

  step-IsStuck : (x : Choice) (s : System W) → IsStuck s → Ensures IsStuck (step inner x s)
  unfolding step fil_step
  step-IsStuck Choice.consumer s h = con_step-IsStuck s.con.pc s h.seeking h
  step-IsStuck Choice.filler s h =
      subst (λ pc. Ensures IsStuck (fil_step inner pc s)) (sym h.ended) h
  step-IsStuck Choice.con_wakes s h = record {
    ended = h.ended;
    asked = h.asked;
    seeking = woken-seeking s.con.pc h.seeking;
  }
  step-IsStuck Choice.fil_wakes s h = record {
    ended = subst (λ pc. wake_eof (wake_room pc) ≡ FilAt.done) (sym h.ended) refl;
    asked = h.asked;
    seeking = h.seeking;
  }
  step-IsStuck (Choice.reads buf base want) s h =
      if-both IsStuck (is_free s.con.pc)
        (λ f. absurd (grind (arith, f, seeking-busy s.con.pc h.seeking))) (λ _. h)
  step-IsStuck (Choice.seeks offset) s h =
      if-both IsStuck (is_free s.con.pc)
        (λ f. absurd (grind (arith, f, seeking-busy s.con.pc h.seeking))) (λ _. h)

  run-kept : (xs : List Choice) (s : System W) → IsStuck s → Ensures IsStuck (run inner xs s)
  unfolding run
  run-kept [] s h = h
  run-kept (x ∷ xs) s h =
      Ensures-bind IsStuck IsStuck (run inner xs) (λ s' h'. run-kept xs s' h') (step inner x s)
        (step-IsStuck x s h)

  -- A request is made.
  asks-IsStuck :
      (s : System W)
      → s.fil.pc ≡ FilAt.done
      → s.stream.filler_started ≡ true
      → Ensures IsStuck (con_step inner ConAt.s_lock s)
  unfolding con_step
  asks-IsStuck s e began =
      if-both (Ensures IsStuck) s.stream.filler_started
        (λ _. record { ended = e; asked = refl; seeking = refl })
        (λ f. absurd (grind (arith, f, began)))

-- A seek that is requested when the filler's thread has ended never returns: in whatever order the two
-- threads take steps and wake, and whatever calls are tried, the request stands and the consumer
-- stays in `sl_buffer_seek_cb`.
pub run-IsStuck :
    {W : Type 0} (inner : Inner W) (s : System W)
    → s.fil.pc ≡ FilAt.done
    → s.stream.filler_started ≡ true
    → s.con.pc ≡ ConAt.s_lock
    → (xs : List Choice) → Ensures IsStuck (run inner (Choice.consumer ∷ xs) s)
unfolding run step
run-IsStuck inner s ended began at_lock xs =
    Ensures-bind IsStuck IsStuck (run inner xs) (λ s' h. run-kept inner xs s' h)
      (con_step inner s.con.pc s)
      (subst (λ pc. Ensures IsStuck (con_step inner pc s)) (sym at_lock)
        (asks-IsStuck inner s ended began))
