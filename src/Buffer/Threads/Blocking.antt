-- ===== src/Buffer/Threads/Blocking.antt =====
-- `sl_buffer_blocking_fill_buffer` beside no consumer.
use libstreamlike.Common.{
  ℕ, zero, suc, ◌≤◌, ◌<◌, ◌≡◌, ◌∙◌, refl, sym, ap, subst, arith, Bool, true, false, not, ltb, ◌&&◌,
  if-both, if-false, if◌then◌else◌, Option, none, some, ◌>>=◌, Ensures, ℤ, size_mod,
}
use libstreamlike.Circbuf.State.{IsCircbuf}
use libstreamlike.Circbuf.Threads.{no_room}
use libstreamlike.Buffer.Machine.{Inner, System, FilAt, is_locked, wake_data}
use libstreamlike.Buffer.Threads.{
  fil_to, fil_step, fill_steps, is_done, step, run, blocking_fill_buffer,
}
use libstreamlike.Buffer.Threads.Source.{IsInner}
use libstreamlike.Buffer.Threads.Round.{round-Ensures}
use libstreamlike.Buffer.Threads.Fill.{close_write-eq}

-- Where the filler can stand while reading is open and no seek is requested
abbrev pub is_filling : FilAt → Bool
is_filling FilAt.start = true
is_filling FilAt.test = true
is_filling FilAt.test_seek = false
is_filling FilAt.ask = true
is_filling FilAt.seek = false
is_filling FilAt.serve = false
is_filling FilAt.enter = true
is_filling FilAt.head = true
is_filling FilAt.wait = true
is_filling FilAt.asleep = true
is_filling FilAt.gate = true
is_filling FilAt.round = true
is_filling FilAt.short = true
is_filling FilAt.asleep_eof = true
is_filling FilAt.eof_woken = true
is_filling FilAt.done = false

filling-undone : (pc : FilAt) → is_filling pc ≡ true → is_done pc ≡ false
filling-undone FilAt.start e = refl
filling-undone FilAt.test e = refl
filling-undone FilAt.test_seek e = refl
filling-undone FilAt.ask e = refl
filling-undone FilAt.seek e = refl
filling-undone FilAt.serve e = refl
filling-undone FilAt.enter e = refl
filling-undone FilAt.head e = refl
filling-undone FilAt.wait e = refl
filling-undone FilAt.asleep e = refl
filling-undone FilAt.gate e = refl
filling-undone FilAt.round e = refl
filling-undone FilAt.short e = refl
filling-undone FilAt.asleep_eof e = refl
filling-undone FilAt.eof_woken e = refl
filling-undone FilAt.done e = cc

-- What a stream is before a consumer has called `sl_buffer_seek_cb` or `sl_buffer_destroy`
pub record IsOpen {W : Type 0} (s : System W) : Type 0 where
  pub sound : IsCircbuf s.stream.cbuf
  pub small : s.stream.step_size < size_mod
  pub put_le : s.fil.written ≤ s.stream.step_size
  pub read_open : s.stream.cbuf.rdone ≡ false
  pub unasked : s.stream.seek_requested ≡ false
  pub filling : is_filling s.fil.pc ≡ true

module _ {W : Type 0} {content : ℕ → ℕ} {at : W → ℕ} (inner : Inner W)
    (i : IsInner inner content at) {s : System W} (h : IsOpen s) where
  open h use {sound, small, put_le, read_open, unasked}

  fil_to-IsOpen : (pc : FilAt) → is_filling pc ≡ true → IsOpen (fil_to s pc)
  fil_to-IsOpen pc f = record {
    sound = sound;
    small = small;
    put_le = put_le;
    read_open = read_open;
    unasked = unasked;
    filling = f;
  }

  either-IsOpen :
      (b : Bool) (p q : FilAt)
      → is_filling p ≡ true
      → is_filling q ≡ true
      → IsOpen (fil_to s (if b then p else q))
  either-IsOpen true p q e f = fil_to-IsOpen p e
  either-IsOpen false p q e f = fil_to-IsOpen q f

  passed :
      (b : Bool) (p q : FilAt)
      → b ≡ false
      → is_filling q ≡ true
      → IsOpen (fil_to s (if b then p else q))
  passed true p q e f = absurd (grind (arith, e))
  passed false p q e f = fil_to-IsOpen q f

  round-IsOpen : Ensures IsOpen (fil_step inner FilAt.round s)
  round-IsOpen = round-Ensures inner content at i s sound put_le small IsOpen (λ r t. record {
    sound = t.sound;
    small = small;
    put_le = omega (arith, put_le, t.at_most);
    read_open = ap (λ x. x.rdone) t.same ∙ read_open;
    unasked = unasked;
    filling = refl;
  })

  short-IsOpen : Ensures IsOpen (fil_step inner FilAt.short s)
  unfolding fil_step
  short-IsOpen =
      if-both (Ensures IsOpen) (is_locked s.con.pc) (λ _. h)
        (λ _.
          subst
            (λ c. IsOpen (record s {
              stream = record s.stream { cbuf = c };
              con = record s.con { pc = wake_data s.con.pc };
              fil = record s.fil {
                pc = if s.stream.cbuf.rdone then FilAt.test else FilAt.asleep_eof;
              };
            }))
            (sym (close_write-eq s.stream.cbuf))
            (record {
              sound = record { whole = sound.whole; valid = sound.valid };
              small = small;
              put_le = put_le;
              read_open = read_open;
              unasked = unasked;
              filling =
                  if-both (λ pc. is_filling pc ≡ true) s.stream.cbuf.rdone (λ _. refl) (λ _. refl);
            }))

  fil_step-IsOpen : (pc : FilAt) → is_filling pc ≡ true → Ensures IsOpen (fil_step inner pc s)
  unfolding fil_step
  fil_step-IsOpen FilAt.start f =
      if-both (Ensures IsOpen) (is_locked s.con.pc) (λ _. h)
        (λ _. record {
          sound = sound;
          small = small;
          put_le = put_le;
          read_open = read_open;
          unasked = unasked;
          filling = refl;
        })
  fil_step-IsOpen FilAt.test f = passed s.stream.cbuf.rdone _ _ read_open refl
  fil_step-IsOpen FilAt.test_seek f = cc
  fil_step-IsOpen FilAt.ask f = passed s.stream.seek_requested _ _ unasked refl
  fil_step-IsOpen FilAt.seek f = cc
  fil_step-IsOpen FilAt.serve f = cc
  fil_step-IsOpen FilAt.enter f = record {
    sound = sound;
    small = small;
    put_le = omega arith;
    read_open = read_open;
    unasked = unasked;
    filling = if-both (λ pc. is_filling pc ≡ true) s.stream.cbuf.rdone (λ _. refl) (λ _. refl);
  }
  fil_step-IsOpen FilAt.head f =
      either-IsOpen
        (ltb s.fil.written s.stream.step_size && not s.stream.cbuf.rdone && not s.fil.eof)
        FilAt.wait (if ltb s.fil.written s.stream.step_size then FilAt.short else FilAt.test) refl
        (if-both (λ pc. is_filling pc ≡ true) (ltb s.fil.written s.stream.step_size) (λ _. refl)
          (λ _. refl))
  fil_step-IsOpen FilAt.wait f =
      either-IsOpen (no_room s.stream.cbuf && not s.stream.cbuf.rdone) _ _ refl refl
  fil_step-IsOpen FilAt.asleep f = h
  fil_step-IsOpen FilAt.gate f = either-IsOpen s.stream.cbuf.rdone _ _ refl refl
  fil_step-IsOpen FilAt.round f = round-IsOpen
  fil_step-IsOpen FilAt.short f = short-IsOpen
  fil_step-IsOpen FilAt.asleep_eof f = h
  fil_step-IsOpen FilAt.eof_woken f =
      if-both (Ensures IsOpen) (is_locked s.con.pc) (λ _. h)
        (λ _. either-IsOpen s.stream.cbuf.rdone _ _ refl refl)
  fil_step-IsOpen FilAt.done f = cc

-- `sl_buffer_blocking_fill_buffer` over an inner stream that keeps its contract, on a sound buffer that is
-- open for reading, with no seek requested and a step below `2 ^ 64`, does not leave a block, and has
-- not returned after any number of steps of its own: it waits until another thread seeks or destroys
-- the stream.
pub blocking_fill_buffer-waits :
    {W : Type 0} (inner : Inner W) (content : ℕ → ℕ) (at : W → ℕ)
    → IsInner inner content at
    → (n : ℕ) (s : System W) → IsOpen s
    → blocking_fill_buffer inner (fill_steps n) (some (some s)) ≡ some none
unfolding blocking_fill_buffer run step
blocking_fill_buffer-waits inner content at i zero s h =
    ap some (if-false _ _ _ (filling-undone s.fil.pc h.filling))
blocking_fill_buffer-waits inner content at i (suc n) s h =
    next (blocking_fill_buffer-waits inner content at i n) (fil_step inner s.fil.pc s)
      (fil_step-IsOpen inner i h s.fil.pc h.filling)
  where
    next :
        ((s' : System _)
          → IsOpen s'
          → blocking_fill_buffer inner (fill_steps n) (some (some s')) ≡ some none)
        → (o : Option (System _)) → Ensures IsOpen o
        → (o >>= λ s'. run inner (fill_steps n) s')
            >>= (λ s'. some (if is_done s'.fil.pc then some (ℤ.pos 0) else none))
          ≡ some none
    next ih none g = absurd g
    next ih (some s') g = ih s' g
