-- ===== src/Buffer/Threads/Seek.antt =====
-- Every step of `sl_buffer_seek_cb` keeps the invariant.
use libstreamlike.Common.{
  ℕ, ◌≡◌, ◌∙◌, refl, sym, ap, subst, arith, true, false, if◌then◌else◌, if-both, if-true, if-false,
  Ensures, ℤ, eq_ℤ,
}
use libstreamlike.Memory.{bytes-ext}
use libstreamlike.Circbuf.{Circbuf, close_read}
use libstreamlike.Buffer.Machine.{Inner, System, ConAt, wake_room, wake_eof}
use libstreamlike.Buffer.Threads.{con_step}
use libstreamlike.Buffer.Threads.Source.{IsInner, seek-lands}
use libstreamlike.Buffer.Threads.Inv.{front, Inv, Holds}
use libstreamlike.Buffer.Threads.PastConsumer.{
  moved-FilInv, unstarted-FilInv, requested-FilInv, closed-FilInv, has_sought-eof,
}
use libstreamlike.Buffer.Threads.PastFiller.{asked-pos}
use libstreamlike.Buffer.Threads.Consume.{con_to-Inv}

pub close_read-eq : (c : Circbuf) → (close_read c).1 ≡ record c { rdone = true }
unfolding close_read
close_read-eq c =
    if-both (λ (r : ℤ × Circbuf). r.1 ≡ record c { rdone = true }) c.rdone
      (λ e. ap (λ b. record c { rdone = b }) e) (λ _. refl)

module _ {W : Type 0} {content : ℕ → ℕ} {at : W → ℕ} {next : ℕ} {s : System W} (inner : Inner W)
    (i : IsInner inner content at) (inv : Inv content at next s) where
  open inv use {sound, shaped, queued, cons, fils, sync}

  pub s_lock-Holds :
      (s.stream.seek_requested ≡ false) × (s.stream.pos ≡ ℤ.pos next)
      → Ensures (Holds content at) (con_step inner ConAt.s_lock s)
  unfolding con_step
  s_lock-Holds h =
      let (lands, stays) =
        seek-lands inner content at i s.world s.stream.seek_off s.stream.seek_whence
          shaped.from_start in
      let r = inner.seek s.world s.stream.seek_off s.stream.seek_whence in
      if-both (Ensures (Holds content at)) s.stream.filler_started
        (λ st. (
          next,
          record {
            sound = sound;
            shaped = shaped;
            queued = queued;
            cons = (refl, h.1);
            fils = requested-FilInv s.fil.pc s.stream st fils;
            sync = record { behind = sync.behind; landed = sync.landed };
          },
        ))
        (λ st.
          let u = unstarted-FilInv s.fil.pc s.stream in
          if-both
            (λ b.
              Holds content at
                (record s { stream = b; world = r.0; con = record s.con { pc = ConAt.idle } }))
            (eq_ℤ r.1 0)
            (λ e.
              let (f, z, n, n') = u s.stream.seek_off false r.1 st fils in
              (
                at r.0,
                record {
                  sound = sound;
                  shaped = shaped;
                  queued = queued ∙ bytes-ext _ _ _ (λ i l. absurd (omega (arith, z, l)));
                  cons = (h.0, sym (lands e));
                  fils = f;
                  sync = record {
                    behind = λ _. omega (arith, z);
                    landed = λ t. absurd (grind (arith, t, n'));
                  };
                },
              ))
            (λ e.
              let (f, z, n, n') = u s.stream.pos s.stream.eof r.1 st fils in
              (
                next,
                record {
                  sound = sound;
                  shaped = shaped;
                  queued = queued;
                  cons = h;
                  fils = f;
                  sync = record {
                    behind = λ _. stays e ∙ sync.behind n;
                    landed = λ t. absurd (grind (arith, t, n'));
                  };
                },
              )))

  pub s_close-Holds :
      (s.stream.seek_requested ≡ true) × (s.stream.pos ≡ ℤ.pos next)
      → Ensures (Holds content at) (con_step inner ConAt.s_close s)
  unfolding con_step
  s_close-Holds h =
      subst
        (λ c.
          Holds content at
            (closed c (if s.stream.seek_requested then ConAt.s_asleep else ConAt.s_woken)))
        (sym (close_read-eq s.stream.cbuf))
        (subst (λ pc. Holds content at (closed (record s.stream.cbuf { rdone = true }) pc))
          (sym (if-true _ _ _ h.0))
          (
            next,
            record {
              sound = record { whole = sound.whole; valid = sound.valid };
              shaped = shaped;
              queued = queued;
              cons = (h.0, h.1, refl);
              fils = closed-FilInv s.fil.pc s.stream h.0 fils;
              sync = record {
                behind = λ z. sync.behind (sym (has_sought-eof s.fil.pc s.stream.seek_result) ∙ z);
                landed = λ z. sync.landed (sym (has_sought-eof s.fil.pc s.stream.seek_result) ∙ z);
              };
            },
          ))
    where
      closed : Circbuf → ConAt → System W
      closed c pc = record s {
        stream = record s.stream { cbuf = c };
        con = record s.con { pc = pc };
        fil = record s.fil { pc = wake_eof (wake_room s.fil.pc) };
      }

  pub s_woken-Holds :
      (front s.stream ≡ ℤ.pos next) × (s.stream.seek_requested ≡ true → s.stream.cbuf.rdone ≡ true)
      → Ensures (Holds content at) (con_step inner ConAt.s_woken s)
  unfolding con_step
  s_woken-Holds h =
      if-both (Ensures (Holds content at)) s.stream.seek_requested
        (λ e. (
          next,
          con_to-Inv inner inv ConAt.s_asleep
              (e, asked-pos content next ConAt.s_woken s.stream s.con e h, h.1 e),
        ))
        (λ e.
          if-both
            (λ b.
              Holds content at (record s { stream = b; con = record s.con { pc = ConAt.idle } }))
            (eq_ℤ s.stream.seek_result 0)
            (λ t. (
              next,
              record {
                sound = sound;
                shaped = shaped;
                queued = queued;
                cons = (e, sym (if-true _ _ _ t) ∙ sym (if-false _ _ _ e) ∙ h.0);
                fils = moved-FilInv s.fil.pc s.stream _ _ _ _ fils;
                sync = record { behind = sync.behind; landed = sync.landed };
              },
            ))
            (λ t. (
              next,
              record {
                sound = sound;
                shaped = shaped;
                queued = queued;
                cons = (e, sym (if-false _ _ _ t) ∙ sym (if-false _ _ _ e) ∙ h.0);
                fils = fils;
                sync = sync;
              },
            )))
