-- ===== src/Buffer/Threads/Consume.antt =====
-- Every step of `sl_buffer_read_cb` keeps the invariant.
use libstreamlike.Common.{
  ℕ, ◌+◌, ◌-◌, ◌<◌, ◌≡◌, ◌∙◌, refl, sym, ap, ap₂, subst, arith, inl, Bool, true, false, not, ltb,
  ◌==◌, ◌&&◌, if◌then◌else◌, ◌++◌, Option, none, some, ◌>>=◌, Ensures, add_size, add_size-eq,
  sub_size-eq, ℤ, add_off,
}
use libstreamlike.Memory.{bytes, bytes-append, bytes-ext, bytes-split, length, length-bytes}
use libstreamlike.Circbuf.State.{contents}
use libstreamlike.Circbuf.Read.{Reading, read_some}
use libstreamlike.Circbuf.Read.Fifo.{IsRead, read_some-IsRead}
use libstreamlike.Buffer.Machine.{Inner, System, ConAt, wake_room}
use libstreamlike.Buffer.Threads.{con_to, con_step}
use libstreamlike.Buffer.Threads.Inv.{used_of, IsReading, ConInv, FilInv, Inv, Holds}
use libstreamlike.Buffer.Threads.PastConsumer.{took-FilInv, moved-FilInv, has_sought-room}

module _ {W : Type 0} {content : ℕ → ℕ} {at : W → ℕ} {next : ℕ} {s : System W} (inner : Inner W)
    (inv : Inv content at next s) where
  open inv use {sound, shaped, queued, cons, fils, sync}

  pub con_to-Inv :
      (pc : ConAt)
      → ConInv content next pc s.stream (record s.con { pc = pc })
      → Inv content at next (con_to s pc)
  con_to-Inv pc h = record {
    sound = sound;
    shaped = shaped;
    queued = queued;
    cons = h;
    fils = fils;
    sync = sync;
  }

  -- A step that goes one of two ways
  pub either-Holds :
      (b : Bool) (p q : ConAt)
      → (b ≡ true → Holds content at (con_to s p))
      → (b ≡ false → Holds content at (con_to s q))
      → Holds content at (con_to s (if b then p else q))
  either-Holds true p q h k = h refl
  either-Holds false p q h k = k refl

  pub r_head-Holds :
      IsReading content next s.stream s.con
      → Ensures (Holds content at) (con_step inner ConAt.r_head s)
  unfolding con_step
  r_head-Holds h =
      either-Holds (ltb s.con.got s.con.want) _ _
        (λ lt.
          either-Holds (s.stream.cbuf.roff == s.stream.cbuf.woff) _ _
            (λ e. (next, con_to-Inv ConAt.r_ask h)) (λ e. (next, con_to-Inv ConAt.r_wait h)))
        (λ ge. (next, con_to-Inv ConAt.r_finish (h, λ l. absurd (ground (arith, ge, l)))))

  pub r_ask-Holds :
      IsReading content next s.stream s.con
      → Ensures (Holds content at) (con_step inner ConAt.r_ask s)
  unfolding con_step
  r_ask-Holds h =
      either-Holds s.stream.cbuf.wdone _ _ (λ e. (next, con_to-Inv ConAt.r_finish (h, λ l. e)))
        (λ e. (next, con_to-Inv ConAt.r_wait h))

  pub r_wait-Holds :
      IsReading content next s.stream s.con
      → Ensures (Holds content at) (con_step inner ConAt.r_wait s)
  unfolding con_step
  r_wait-Holds h =
      either-Holds ((s.stream.cbuf.roff == s.stream.cbuf.woff) && not s.stream.cbuf.wdone) _ _
        (λ e. (next, con_to-Inv ConAt.r_asleep (h, ground (arith, e), ground (arith, e))))
        (λ e. (next, con_to-Inv ConAt.r_round h))

  pub r_finish-Holds :
      IsReading content next s.stream s.con × (s.con.got < s.con.want → s.stream.cbuf.wdone ≡ true)
      → Ensures (Holds content at) (con_step inner ConAt.r_finish s)
  unfolding con_step
  r_finish-Holds ((q, (k, p, g)), t) = (
    next,
    record {
      sound = sound;
      shaped = shaped;
      queued = queued;
      cons = (q, ap (λ z. add_off z s.con.got) p ∙ ap ℤ.pos (sym g.0), (k, g), t);
      fils = moved-FilInv s.fil.pc s.stream _ _ _ _ fils;
      sync = record { behind = sync.behind; landed = sync.landed };
    },
  )

  -- The bytes of the read so far, and the new ones behind them
  got_more :
      (r : Reading) (k : ℕ)
      → bytes (λ i. s.con.buf.at (s.con.base + i)) s.con.got
        ≡ bytes (λ i. content (k + i)) s.con.got
      → IsRead s.stream.cbuf s.con.buf (s.con.base + s.con.got) (s.con.want - s.con.got) r
      → next ≡ k + s.con.got
      → bytes (λ i. r.buf.at (s.con.base + s.con.got + i)) r.count
        ≡ bytes (λ i. content (next + i)) r.count
      → bytes (λ i. r.buf.at (s.con.base + i)) (s.con.got + r.count)
        ≡ bytes (λ i. content (k + i)) (s.con.got + r.count)
  got_more r k old t e new =
      sym (
        bytes-append (λ i. r.buf.at (s.con.base + i)) (λ i. r.buf.at (s.con.base + s.con.got + i)) _
          s.con.got r.count _ refl (λ i l. refl) (λ i l. ap r.buf.at (omega arith)))
      ∙ ap₂ ◌++◌
          (bytes-ext _ (λ i. s.con.buf.at (s.con.base + i)) s.con.got
              (λ i l. t.frame (s.con.base + i) (inl (omega arith)))
            ∙ old)
          new
      ∙ bytes-append (λ i. content (k + i)) (λ i. content (next + i)) _ s.con.got r.count _ refl
          (λ i l. refl) (λ i l. ap content (omega (arith, e)))

  -- What `circbuf_read_some` takes is what stands at `next`.
  took-Holds :
      (r : Reading)
      → IsReading content next s.stream s.con
      → IsRead s.stream.cbuf s.con.buf (s.con.base + s.con.got) (s.con.want - s.con.got) r
      → Holds content at (record s {
        stream = record s.stream { cbuf = r.cbuf };
        con = record s.con { buf = r.buf; got = s.con.got + r.count; pc = ConAt.r_head };
        fil = record s.fil { pc = wake_room s.fil.pc };
      })
  took-Holds r (q, (k, p, g)) t =
      let c = s.stream.cbuf in
      let f : ℕ → ℕ = λ i. r.buf.at (s.con.base + s.con.got + i) in
      let (new, left) =
        bytes-split f (λ i. content (next + i)) (λ i. content (next + r.count + i)) r.count
          (used_of c - r.count) (used_of c) (contents r.cbuf) (omega (arith, t.counted))
          (λ i l. ap content (omega arith)) (t.fifo ∙ queued) in
      let e : used_of r.cbuf ≡ used_of c - r.count =
        sym (length-bytes _ (used_of r.cbuf))
        ∙ ap length left
        ∙ length-bytes _ (used_of c - r.count) in
      (
        next + r.count,
        record {
          sound = t.sound;
          shaped = record {
            room = omega (arith, shaped.room, t.len_eq);
            small = shaped.small;
            got_le = omega (arith, t.counted, shaped.got_le);
            step_small = shaped.step_small;
            written_le = shaped.written_le;
            from_start = shaped.from_start;
          };
          queued = left ∙ ap (bytes (λ i. content (next + r.count + i))) (sym e);
          cons = (q, (k, p, (omega (arith, g.0), got_more r k g.1 t g.0 new)));
          fils =
              subst (λ x. FilInv (wake_room s.fil.pc) (record s.stream { cbuf = x })) (sym t.same)
                (took-FilInv s.fil.pc s.stream r.cbuf.roff
                  (λ z. omega (arith, z, e, ap used_of t.same)) fils);
          sync = record {
            behind = λ z. omega (
              arith,
              e,
              t.counted,
              sync.behind (sym (has_sought-room s.fil.pc s.stream.seek_result) ∙ z),
            );
            landed = λ z. sync.landed (sym (has_sought-room s.fil.pc s.stream.seek_result) ∙ z);
          };
        },
      )

  pub r_round-Holds :
      IsReading content next s.stream s.con
      → Ensures (Holds content at) (con_step inner ConAt.r_round s)
  unfolding con_step
  r_round-Holds h =
      let i =
        read_some-IsRead s.stream.cbuf s.con.buf (s.con.base + s.con.got) (s.con.want - s.con.got)
          sound (omega (arith, shaped)) (omega (arith, shaped)) in
      rw (sub_size-eq s.con.want s.con.got (omega (arith, shaped)) (omega (arith, shaped)))
        (go (read_some s.stream.cbuf s.con.buf (s.con.base + s.con.got) (s.con.want - s.con.got)) i)
    where
      go :
          (o : Option Reading)
          → Ensures
              (IsRead s.stream.cbuf s.con.buf (s.con.base + s.con.got) (s.con.want - s.con.got))
              o
          → Ensures (Holds content at) (
              o >>= λ r. some (record s {
                stream = record s.stream { cbuf = r.cbuf };
                con = record s.con {
                  buf = r.buf;
                  got = add_size s.con.got r.count;
                  pc = ConAt.r_head;
                };
                fil = record s.fil { pc = wake_room s.fil.pc };
              }))
      go none i = absurd i
      go (some r) i =
          rw (add_size-eq s.con.got r.count (omega (arith, shaped, i.counted))) (took-Holds r h i)
