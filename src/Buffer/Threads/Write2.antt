-- ===== src/Buffer/Threads/Write2.antt =====
-- Every step of `circbuf_write2` but its round keeps the invariant.
use libstreamlike.Common.{
  ℕ, ◌+◌, ◌≡◌, refl, arith, inl, Bool, true, false, not, ltb, ◌&&◌, if◌then◌else◌, if-both, Ensures,
  add_size-eq,
}
use libstreamlike.Circbuf.{Circbuf}
use libstreamlike.Circbuf.State.{IsCircbuf}
use libstreamlike.Circbuf.Threads.{no_room}
use libstreamlike.Buffer.Machine.{Inner, System, FilAt}
use libstreamlike.Buffer.Threads.{fil_to, fil_step}
use libstreamlike.Buffer.Threads.Source.{IsInner}
use libstreamlike.Buffer.Threads.Inv.{used_of, FilInv, has_sought, IsAsked, Inv}
use libstreamlike.Buffer.Threads.Fill.{fil_to-Inv, either-Inv}

-- A buffer without room is full.
pub no_room-full : (c : Circbuf) → IsCircbuf c → no_room c ≡ true → used_of c + 1 ≡ c.size
no_room-full c v e = ground (arith, e, add_size-eq c.woff 1 (omega arith))

module _ {W : Type 0} {content : ℕ → ℕ} {at : W → ℕ} {next : ℕ} {s : System W} (inner : Inner W)
    (i : IsInner inner content at) (inv : Inv content at next s)
    (behind : at s.world ≡ next + used_of s.stream.cbuf) where
  open inv use {sound, shaped, queued, cons}

  pub enter-Inv :
      FilInv FilAt.enter s.stream → Ensures (Inv content at next) (fil_step inner FilAt.enter s)
  unfolding fil_step
  enter-Inv (p, h) =
      if-both
        (λ pc.
          Inv content at next (record s { fil = record { written = 0; eof = false; pc = pc } }))
        s.stream.cbuf.rdone (λ _. entered FilAt.short (p, h) refl)
        (λ e. entered FilAt.head (p, λ f. absurd (grind (arith, e, f))) refl)
    where
      entered :
          (pc : FilAt)
          → FilInv pc s.stream
          → has_sought pc s.stream.seek_result ≡ false
          → Inv content at next (record s { fil = record { written = 0; eof = false; pc = pc } })
      entered pc h n = record {
        sound = sound;
        shaped = record {
          room = shaped.room;
          small = shaped.small;
          got_le = shaped.got_le;
          step_small = shaped.step_small;
          written_le = omega arith;
          from_start = shaped.from_start;
        };
        queued = queued;
        cons = cons;
        fils = h;
        sync = record { behind = λ _. behind; landed = λ t. absurd (grind (arith, n, t)) };
      }

  -- The end of `circbuf_write2`
  write-Inv :
      (b : Bool)
      → (s.stream.filler_started ≡ true) × IsAsked s.stream
      → Inv content at next (fil_to s (if b then FilAt.short else FilAt.test))
  write-Inv b (p, h) =
      either-Inv inner i inv b _ _
        (λ _. fil_to-Inv inner i inv FilAt.short (p, λ f. inl (h f)) refl behind)
        (λ _. fil_to-Inv inner i inv FilAt.test (p, λ f. inl (h f)) refl behind)

  pub head-Inv :
      FilInv FilAt.head s.stream → Ensures (Inv content at next) (fil_step inner FilAt.head s)
  unfolding fil_step
  head-Inv h =
      either-Inv inner i inv
        (ltb s.fil.written s.stream.step_size && not s.stream.cbuf.rdone && not s.fil.eof)
        FilAt.wait (if ltb s.fil.written s.stream.step_size then FilAt.short else FilAt.test)
        (λ _. fil_to-Inv inner i inv FilAt.wait h refl behind)
        (λ _. write-Inv (ltb s.fil.written s.stream.step_size) h)

  pub wait-Inv :
      FilInv FilAt.wait s.stream → Ensures (Inv content at next) (fil_step inner FilAt.wait s)
  unfolding fil_step
  wait-Inv (p, h) =
      either-Inv inner i inv (no_room s.stream.cbuf && not s.stream.cbuf.rdone) _ _
        (λ e.
          fil_to-Inv inner i inv FilAt.asleep
            (p, no_room-full s.stream.cbuf sound (ground (arith, e)), ground (arith, e)) refl
            behind)
        (λ e. fil_to-Inv inner i inv FilAt.gate (p, h) refl behind)

  pub gate-Inv :
      FilInv FilAt.gate s.stream → Ensures (Inv content at next) (fil_step inner FilAt.gate s)
  unfolding fil_step
  gate-Inv h =
      either-Inv inner i inv s.stream.cbuf.rdone _ _
        (λ _. fil_to-Inv inner i inv FilAt.head h refl behind)
        (λ _. fil_to-Inv inner i inv FilAt.round h refl behind)
