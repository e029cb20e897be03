-- ===== src/Buffer/Threads/Produce.antt =====
-- A round of `circbuf_write2` keeps the invariant: what the inner stream hands over joins the queue.
use libstreamlike.Common.{ℕ, ◌+◌, ◌≡◌, ◌∙◌, refl, sym, ap, ap₂, subst, arith, List, ◌++◌, Ensures}
use libstreamlike.Memory.{bytes, bytes-append, bytes-split, length, length-bytes, length-append}
use libstreamlike.Circbuf.State.{contents}
use libstreamlike.Circbuf.Feed.{Feed}
use libstreamlike.Buffer.Machine.{Inner, System, FilAt, wake_data}
use libstreamlike.Buffer.Threads.{fil_step}
use libstreamlike.Buffer.Threads.Source.{IsInner}
use libstreamlike.Buffer.Threads.Inv.{used_of, ConInv, FilInv, Inv}
use libstreamlike.Buffer.Threads.Round.{after_round, IsFed, round-Ensures}
use libstreamlike.Buffer.Threads.PastFiller.{put-ConInv}

module _ {W : Type 0} {content : ℕ → ℕ} {at : W → ℕ} {next : ℕ} {s : System W} (inner : Inner W)
    (i : IsInner inner content at) (inv : Inv content at next s)
    (behind : at s.world ≡ next + used_of s.stream.cbuf) where
  open inv use {sound, shaped, queued, cons}

  abbrev given : W → List ℕ
  given w = bytes content (at w)

  put-Inv :
      (r : Feed W)
      → FilInv FilAt.round s.stream
      → IsFed content at s r
      → Inv content at next (after_round s r)
  put-Inv r (p, h) t =
      let c = s.stream.cbuf in
      let (new, gives, joins, n) = t.fifo in
      let a : at r.context ≡ at s.world + r.count =
        sym (length-bytes content (at r.context))
        ∙ ap length gives
        ∙ length-append (given s.world) new
        ∙ ap₂ ◌+◌ (length-bytes content (at s.world)) n in
      let e : used_of r.cbuf ≡ used_of c + r.count =
        sym (length-bytes _ (used_of r.cbuf))
        ∙ ap length joins
        ∙ length-append (contents c) new
        ∙ ap₂ ◌+◌ (length-bytes _ (used_of c)) n in
      let got =
        bytes-split content content (λ i. content (next + used_of c + i)) (at s.world) r.count
          (at r.context) new (sym a) (λ i l. ap content (omega (arith, behind))) (sym gives) in
      record {
        sound = t.sound;
        shaped = record {
          room = shaped.room;
          small = shaped.small;
          got_le = shaped.got_le;
          step_small = shaped.step_small;
          written_le = omega (arith, shaped.written_le, t.at_most);
          from_start = shaped.from_start;
        };
        queued =
            joins
            ∙ ap₂ ◌++◌ queued got.1
            ∙ bytes-append (λ i. content (next + i)) _ (λ i. content (next + i)) (used_of c) r.count
                (used_of r.cbuf) (sym e) (λ i l. refl) (λ i l. ap content (omega arith));
        cons =
            subst
              (λ x.
                ConInv content next (wake_data s.con.pc) (record s.stream { cbuf = x })
                  (record s.con { pc = wake_data s.con.pc }))
              (sym t.same)
              (put-ConInv content next s.con.pc s.stream s.con (wake_data s.con.pc) r.cbuf.mem
                r.cbuf.woff cons);
        fils = (p, λ f. h (sym (ap (λ x. x.rdone) t.same) ∙ f));
        sync = record {
          behind = λ _. omega (arith, a, e, behind);
          landed = λ t. absurd (grind (arith, t));
        };
      }

  pub round-Inv :
      FilInv FilAt.round s.stream → Ensures (Inv content at next) (fil_step inner FilAt.round s)
  round-Inv h =
      round-Ensures inner content at i s sound shaped.written_le shaped.step_small
        (Inv content at next) (λ r t. put-Inv r h t)
