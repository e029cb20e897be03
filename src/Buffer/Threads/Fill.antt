-- ===== src/Buffer/Threads/Fill.antt =====
-- Every step of the filler outside of `circbuf_write2` keeps the invariant.
use libstreamlike.Common.{
  ℕ, ◌+◌, ◌≡◌, ◌⊎◌, ◌∙◌, refl, sym, ap, subst, arith, inl, inr, Bool, true, false, if◌then◌else◌,
  if-both, if-true, if-false, Ensures, ℤ, eq_ℤ,
}
use libstreamlike.Circbuf.{Circbuf, reset, close_write}
use libstreamlike.Circbuf.Length.{reset_lem}
use libstreamlike.Buffer.Machine.{Inner, System, FilAt, is_locked, wake_data, wake_seek}
use libstreamlike.Buffer.Threads.{fil_to, fil_step}
use libstreamlike.Buffer.Threads.Source.{IsInner, seek-lands}
use libstreamlike.Buffer.Threads.Inv.{used_of, FilInv, has_sought, IsSynced, Inv, Holds}
use libstreamlike.Buffer.Threads.PastFiller.{
  started-ConInv, sought-ConInv, served-ConInv, closed-ConInv, asked-pos,
}

pub close_write-eq : (c : Circbuf) → (close_write c).1 ≡ record c { wdone = true }
unfolding close_write
close_write-eq c =
    if-both (λ (r : ℤ × Circbuf). r.1 ≡ record c { wdone = true }) c.wdone
      (λ e. ap (λ b. record c { wdone = b }) e) (λ _. refl)

module _ {W : Type 0} {content : ℕ → ℕ} {at : W → ℕ} {next : ℕ} {s : System W} (inner : Inner W)
    (i : IsInner inner content at) (inv : Inv content at next s) where
  open inv use {sound, shaped, queued, cons}

  -- Where nothing was sought, a step to a place where nothing is
  pub fil_to-Inv :
      (pc : FilAt)
      → FilInv pc s.stream
      → has_sought pc s.stream.seek_result ≡ false
      → at s.world ≡ next + used_of s.stream.cbuf
      → Inv content at next (fil_to s pc)
  fil_to-Inv pc h n e = record {
    sound = sound;
    shaped = shaped;
    queued = queued;
    cons = cons;
    fils = h;
    sync = record { behind = λ _. e; landed = λ t. absurd (grind (arith, n, t)) };
  }

  pub either-Inv :
      (b : Bool) (p q : FilAt)
      → (b ≡ true → Inv content at next (fil_to s p))
      → (b ≡ false → Inv content at next (fil_to s q))
      → Inv content at next (fil_to s (if b then p else q))
  either-Inv true p q h k = h refl
  either-Inv false p q h k = k refl

  module _ (behind : at s.world ≡ next + used_of s.stream.cbuf) where
    pub start-Inv :
        FilInv FilAt.start s.stream → Ensures (Inv content at next) (fil_step inner FilAt.start s)
    unfolding fil_step
    start-Inv (p, q, r, z) =
        if-both (Ensures (Inv content at next)) (is_locked s.con.pc) (λ _. inv)
          (λ _. record {
            sound = sound;
            shaped = shaped;
            queued = queued;
            cons = started-ConInv content next s.con.pc s.stream s.con cons;
            fils = (refl, λ f. absurd (grind (arith, r, f)));
            sync = record { behind = λ _. behind; landed = λ t. absurd (grind (arith, t)) };
          })

    pub test-Inv :
        FilInv FilAt.test s.stream → Ensures (Inv content at next) (fil_step inner FilAt.test s)
    unfolding fil_step
    test-Inv (p, t) =
        either-Inv s.stream.cbuf.rdone _ _ (λ e. fil_to-Inv FilAt.test_seek (p, t, e) refl behind)
          (λ e. fil_to-Inv FilAt.ask (p, λ f. absurd (grind (arith, e, f))) refl behind)

    pub test_seek-Inv :
        FilInv FilAt.test_seek s.stream
        → Ensures (Inv content at next) (fil_step inner FilAt.test_seek s)
    unfolding fil_step
    test_seek-Inv (p, t, r) =
        either-Inv s.stream.seek_requested _ _ (λ e. fil_to-Inv FilAt.ask (p, λ f. e) refl behind)
          (λ e. elim (t r) [
            | inl q ↦ absurd (grind (arith, e, q))
            | inr (z, w) ↦ fil_to-Inv FilAt.done (p, z, w, r) refl behind
          ])

    pub ask-Inv :
        FilInv FilAt.ask s.stream → Ensures (Inv content at next) (fil_step inner FilAt.ask s)
    unfolding fil_step
    ask-Inv (p, h) =
        either-Inv s.stream.seek_requested _ _ (λ e. fil_to-Inv FilAt.seek (p, e) refl behind)
          (λ e. fil_to-Inv FilAt.enter (p, λ f. inl (h f)) refl behind)

    pub seek-Inv :
        FilInv FilAt.seek s.stream → Ensures (Inv content at next) (fil_step inner FilAt.seek s)
    unfolding fil_step
    seek-Inv (p, e) =
        let (lands, stays) =
          seek-lands inner content at i s.world s.stream.seek_off s.stream.seek_whence
            shaped.from_start in
        record {
          sound = sound;
          shaped = shaped;
          queued = queued;
          cons = sought-ConInv content next s.con.pc s.stream s.con _ e cons;
          fils = (p, e);
          sync = record { behind = λ f. stays f ∙ behind; landed = lands };
        }

    pub short-Inv :
        FilInv FilAt.short s.stream → Ensures (Inv content at next) (fil_step inner FilAt.short s)
    unfolding fil_step
    short-Inv (p, h) =
        if-both (Ensures (Inv content at next)) (is_locked s.con.pc) (λ _. inv)
          (λ _.
            subst
              (λ c.
                Inv content at next
                  (closed c (if s.stream.cbuf.rdone then FilAt.test else FilAt.asleep_eof)))
              (sym (close_write-eq s.stream.cbuf))
              (if-both
                (λ pc. Inv content at next (closed (record s.stream.cbuf { wdone = true }) pc))
                s.stream.cbuf.rdone (λ e. ended FilAt.test (p, λ f. or-closed (h f)) refl)
                (λ e. ended FilAt.asleep_eof (p, refl, e) refl)))
      where
        closed : Circbuf → FilAt → System W
        closed c pc = record s {
          stream = record s.stream { cbuf = c };
          con = record s.con { pc = wake_data s.con.pc };
          fil = record s.fil { pc = pc };
        }

        or-closed : {P Q : Type 0} → P ⊎ Q → P ⊎ (Q × ◌≡◌ {A = Bool} true true)
        or-closed (inl p) = inl p
        or-closed (inr q) = inr (q, refl)

        ended :
            (pc : FilAt)
            → FilInv pc (closed (record s.stream.cbuf { wdone = true }) pc).stream
            → has_sought pc s.stream.seek_result ≡ false
            → Inv content at next (closed (record s.stream.cbuf { wdone = true }) pc)
        ended pc h n = record {
          sound = record { whole = sound.whole; valid = sound.valid };
          shaped = shaped;
          queued = queued;
          cons = closed-ConInv content next s.con.pc s.stream s.con (wake_data s.con.pc) cons;
          fils = h;
          sync = record { behind = λ _. behind; landed = λ t. absurd (grind (arith, n, t)) };
        }

    pub eof_woken-Inv :
        FilInv FilAt.eof_woken s.stream
        → Ensures (Inv content at next) (fil_step inner FilAt.eof_woken s)
    unfolding fil_step
    eof_woken-Inv (p, w, h) =
        if-both (Ensures (Inv content at next)) (is_locked s.con.pc) (λ _. inv)
          (λ _.
            either-Inv s.stream.cbuf.rdone _ _
              (λ e. fil_to-Inv FilAt.test (p, λ f. inl (h f)) refl behind)
              (λ e. fil_to-Inv FilAt.asleep_eof (p, w, e) refl behind))

  pub serve-Holds :
      FilInv FilAt.serve s.stream
      → IsSynced next (at s.world) FilAt.serve s.stream
      → Ensures (Holds content at) (fil_step inner FilAt.serve s)
  unfolding fil_step reset
  serve-Holds (p, e) y =
      if-both (Ensures (Holds content at)) (is_locked s.con.pc)
        (λ l. (
          next,
          record {
            sound = sound;
            shaped = shaped;
            queued = queued;
            cons = cons;
            fils = inv.fils;
            sync = inv.sync;
          },
        ))
        (λ l.
          if-both (λ c. Holds content at (served c)) (eq_ℤ s.stream.seek_result 0)
            (λ z. (
              at s.world,
              record {
                sound = (reset_lem s.stream.cbuf sound).0;
                shaped = shaped;
                queued = refl;
                cons =
                    served-ConInv content next (at s.world) s.con.pc s.stream
                      (served (reset s.stream.cbuf)).stream s.con (wake_seek s.con.pc) e l refl
                      (if-true _ _ _ z ∙ sym (y.landed z)) cons;
                fils = (p, λ f. absurd (grind (arith, f)));
                sync = record {
                  behind = λ _. omega arith;
                  landed = λ t. absurd (grind (arith, t));
                };
              },
            ))
            (λ z. (
              next,
              record {
                sound = sound;
                shaped = shaped;
                queued = queued;
                cons =
                    served-ConInv content next next s.con.pc s.stream (served s.stream.cbuf).stream
                      s.con (wake_seek s.con.pc) e l refl
                      (if-false _ _ _ z ∙ asked-pos content next s.con.pc s.stream s.con e cons)
                      cons;
                fils = (p, λ f. inr z);
                sync = record { behind = λ _. y.behind z; landed = λ t. absurd (grind (arith, t)) };
              },
            )))
    where
      served : Circbuf → System W
      served c = record s {
        stream = record s.stream { cbuf = c; seek_requested = false };
        con = record s.con { pc = wake_seek s.con.pc };
        fil = record s.fil { pc = FilAt.enter };
      }
