-- ===== src/Buffer/Threads/Round.antt =====
-- A round of `circbuf_write2` returns, and leaves what `circbuf_write_some2` promises.
use libstreamlike.Common.{
  ℕ, ◌+◌, ◌-◌, ◌≤◌, ◌<◌, arith, some, Ensures, Ensures-bind, add_size-eq, sub_size-eq, size_mod,
  add_size,
}
use libstreamlike.Memory.{bytes}
use libstreamlike.Circbuf.State.{IsCircbuf}
use libstreamlike.Circbuf.Feed.{Feed, write_some2}
use libstreamlike.Circbuf.Feed.Fifo.{IsFedBy, write_some2-IsFedBy}
use libstreamlike.Buffer.Machine.{Inner, System, FilAt, filler_cb, flag, wake_data}
use libstreamlike.Buffer.Threads.{fil_step}
use libstreamlike.Buffer.Threads.Source.{IsInner, filler_cb-IsWriter}

-- The system behind a round
abbrev pub after_round : {W : Type 0} → System W → Feed W → System W
after_round s r = record s {
  stream = record s.stream { cbuf = r.cbuf };
  world = r.context;
  con = record s.con { pc = wake_data s.con.pc };
  fil = record { written = s.fil.written + r.count; eof = flag r.eof; pc = FilAt.head };
}

-- What `circbuf_write_some2` promises of the round, where the bytes that an inner stream has given are
-- those before its offset
abbrev pub IsFed : {W : Type 0} → (ℕ → ℕ) → (W → ℕ) → System W → Feed W → Type 0
IsFed content at s =
    IsFedBy (λ w. bytes content (at w)) s.stream.cbuf s.world (s.stream.step_size - s.fil.written)
      (some s.fil.eof)

pub round-Ensures :
    {W : Type 0} (inner : Inner W) (content : ℕ → ℕ) (at : W → ℕ)
    → IsInner inner content at
    → (s : System W) → IsCircbuf s.stream.cbuf
    → s.fil.written ≤ s.stream.step_size
    → s.stream.step_size < size_mod
    → (P : System W → Type 0) → ((r : Feed W) → IsFed content at s r → P (after_round s r))
    → Ensures P (fil_step inner FilAt.round s)
unfolding fil_step
round-Ensures {W} inner content at i s sound put_le small P f =
    rw (sub_size-eq s.stream.step_size s.fil.written (omega arith) (omega arith)) (
      Ensures-bind (IsFed content at s) P _ done
        (write_some2 (filler_cb inner) s.stream.cbuf s.world (s.stream.step_size - s.fil.written)
          (some s.fil.eof))
        (write_some2-IsFedBy (filler_cb inner) (λ w. bytes content (at w)) s.stream.cbuf s.world
          (s.stream.step_size - s.fil.written) (some s.fil.eof)
          (filler_cb-IsWriter inner content at i) sound (omega arith)))
  where
    done :
        (r : Feed W)
        → IsFed content at s r
        → P (record (after_round s r) {
          fil = record (after_round s r).fil { written = add_size s.fil.written r.count };
        })
    done r t = rw (add_size-eq s.fil.written r.count (omega (arith, t.at_most))) (f r t)
