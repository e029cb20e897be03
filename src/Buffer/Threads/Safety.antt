-- ===== src/Buffer/Threads/Safety.antt =====
-- A buffered stream from its creation on, in whatever order the filler's thread and its consumer take
-- steps.
use libstreamlike.Common.{
  ◌≢◌, ◌≤◌, ℕ, ◌+◌, ◌-◌, ◌<◌, ◌≡◌, ◌∙◌, refl, sym, ap, subst, arith, Bool, true, false, inl, inr,
  List, some, Ensures, Ensures-map, ℤ, size_mod,
}
use libstreamlike.Memory.{bytes, length, length-bytes}
use libstreamlike.Circbuf.{Circbuf}
use libstreamlike.Circbuf.Lifecycle.Release.{IsAllocator, IsFresh}
use libstreamlike.Buffer.{Buffer}
use libstreamlike.Buffer.Lifecycle.{Held, Outcomes, create2, threaded_fill_buffer, fresh}
use libstreamlike.Buffer.Lifecycle.Create.{IsAccounted, all_held, create2-IsAccounted}
use libstreamlike.Buffer.Lifecycle.Destroy.{IsStarted, threaded_fill_buffer-IsStarted}
use libstreamlike.Buffer.Machine.{Inner, System, ConAt, FilAt}
use libstreamlike.Buffer.Threads.{Choice, run}
use libstreamlike.Buffer.Threads.{close_filler, fill_steps, is_free, step, consumer}
use libstreamlike.Buffer.Threads.Join.{close_filler-ends}
use libstreamlike.Buffer.Threads.Wake.{read-wakes}
use libstreamlike.Buffer.Threads.Serve.{seek-returns}
use libstreamlike.Buffer.Threads.Source.{IsInner}
use libstreamlike.Buffer.Threads.Inv.{used_of, Inv, Holds}
use libstreamlike.Circbuf.{is_read_closed}
use libstreamlike.Buffer.Threads.Promise.{IsBuffering, holds-IsBuffering}
use libstreamlike.Buffer.Threads.Steps.{AllFit, run-Holds}

-- A stream whose filler has just been started, over an inner stream in the state `w`
abbrev pub started : {W : Type 0} → Buffer → W → System W
started b w = record {
  stream = b;
  world = w;
  con = record {
    buf = record { len = 0; at = λ _. 0 };
    base = 0;
    want = 0;
    got = 0;
    pc = ConAt.idle;
  };
  fil = record { written = 0; eof = false; pc = FilAt.start };
}

-- Where `sl_buffer_threaded_fill_buffer` returns 0 on a stream in its first state
starts-eq :
    (ok : Bool) (code : ℕ) (b b' : Buffer) (h h' : Held)
    → h ≡ all_held
    → b.has_filler ≡ false
    → threaded_fill_buffer ok code (some (some b)) h ≡ some (ℤ.pos 0, some (some b'), h')
    → b' ≡ record b { has_filler = true }
starts-eq ok code b b' h h' a f e =
    elim (subst (IsStarted ok code b)
      (ap (threaded_fill_buffer ok code (some (some b))) (sym a) ∙ e)
      (threaded_fill_buffer-IsStarted ok code b f)).1 [
        | inl (n, c, s, k) ↦ cc
        | inr (n, c, s, k) ↦ cc
      ]

module _ {W : Type 0} {content : ℕ → ℕ} {at : W → ℕ} where
  started-Inv :
      (n step_size : ℕ) (c : Circbuf) (w : W)
      → IsFresh n c
      → step_size < size_mod
      → at w ≡ 0
      → Inv content at 0 (started (record (fresh c step_size) { has_filler = true }) w)
  unfolding is_read_closed
  started-Inv n step_size c w f small a =
      let e : used_of c ≡ 0 = sym (length-bytes _ (used_of c)) ∙ ap length f.empty in
      record {
        sound = f.sound;
        shaped = record {
          room = omega arith;
          small = omega arith;
          got_le = omega arith;
          step_small = small;
          written_le = omega arith;
          from_start = refl;
        };
        queued = f.empty ∙ ap (bytes (λ i. content (0 + i))) (sym e);
        cons = (refl, refl);
        fils = (refl, refl, f.read_open, e);
        sync = record {
          behind = λ _. omega (arith, a, e);
          landed = λ t. absurd (grind (arith, t));
        };
      }

-- A stream that `sl_buffer_create2` made and whose filler `sl_buffer_threaded_fill_buffer` started, and a
-- schedule of its threads
module _ {W : Type 0} (inner : Inner W) (content : ℕ → ℕ) (at : W → ℕ)
    (i : IsInner inner content at) (c : Outcomes) (has_inner ok : Bool) (n step_size code : ℕ)
    (b b' : Buffer) (h h' : Held) (law : IsAllocator c.cbuf.alloc) (size_small : n < size_mod - 1)
    (step_small : step_size < size_mod) (made : create2 c has_inner n step_size ≡ some (some b, h))
    (began : threaded_fill_buffer ok code (some (some b)) h ≡ some (ℤ.pos 0, some (some b'), h'))
    (w : W) (at_start : at w ≡ 0) (xs : List Choice) (fit : AllFit xs) where
  created-Holds : Ensures (Holds content at) (run inner xs (started b' w))
  created-Holds =
      let m =
        subst (IsAccounted c n step_size) made
          (create2-IsAccounted c n step_size has_inner law size_small) in
      let started_b = starts-eq ok code b b' h h' m.1 (ap (λ x. x.has_filler) m.2) began in
      run-Holds inner i xs fit (
        0,
        subst (λ x. Inv content at 0 (started x w))
            (ap (λ (x : Buffer). record x { has_filler = true }) (sym m.2) ∙ sym started_b)
            (started-Inv n step_size b.cbuf w m.3 step_small at_start),
      )

  -- From a stream that `sl_buffer_create2` made with an allocator that keeps to its
  -- documentation, of a size below `SIZE_MAX` and a step below `2 ^ 64`, and whose filler
  -- `sl_buffer_threaded_fill_buffer` started, over an inner stream at its start that keeps the
  -- contracts of `sl_read_cb_t` and `sl_seek_cb_t`: whatever seeks with `SL_SEEK_SET` and reads
  -- its consumer makes, each read of a `size_t` into a block that has room, and in whatever
  -- order the two threads take steps and wake unasked, no step leaves a block. At any moment of
  -- a read the bytes copied so far are those of the inner stream from the offset of the stream
  -- on. When a read returns, the offset has moved behind the bytes that it got, which are those
  -- of the inner stream before it; it gets fewer than asked for only once writing is closed.
  -- While a read sleeps, the filler neither sleeps nor has ended. While a seek sleeps, the
  -- filler does not sleep, and has ended only after a seek that failed.
  pub run-IsBuffering : Ensures (IsBuffering content) (run inner xs (started b' w))
  run-IsBuffering =
      Ensures-map (Holds content at) (IsBuffering content)
        (λ s g. holds-IsBuffering content g.0 s g.1) (run inner xs (started b' w)) created-Holds

  -- With an allocator that keeps to its documentation, a size below `SIZE_MAX`, a step below `2
  -- ^ 64` and an inner stream at its start that keeps the contracts of `sl_read_cb_t` and
  -- `sl_seek_cb_t`, after `sl_buffer_create2` made a stream, `sl_buffer_threaded_fill_buffer`
  -- started its filler, and the consumer made any seeks with `SL_SEEK_SET` and reads, each of a
  -- `size_t` into a block that has room, in any order of the threads' steps: while the consumer
  -- is in no call, once `sl_buffer_destroy` has closed reading and signalled the filler, the
  -- filler's thread ends in at most six steps of its own, so that `pthread_join` returns.
  pub close_filler-joined :
      (s : System W)
      → run inner xs (started b' w) ≡ some s
      → is_free s.con.pc ≡ true
      → Ensures (λ s'. s'.fil.pc ≡ FilAt.done) (run inner (fill_steps 6) (close_filler s))
  close_filler-joined s e free =
      close_filler-ends inner content at i s free
        (subst (Ensures (Holds content at)) e created-Holds)

  -- With an allocator that keeps to its documentation, a size below `SIZE_MAX`, a step below `2
  -- ^ 64` and an inner stream at its start that keeps the contracts of `sl_read_cb_t` and
  -- `sl_seek_cb_t`, after `sl_buffer_create2` made a stream, `sl_buffer_threaded_fill_buffer`
  -- started its filler, and the consumer made any seeks with `SL_SEEK_SET` and reads, each of a
  -- `size_t` into a block that has room, in any order of the threads' steps: while a seek
  -- sleeps and the filler has not ended, the filler serves the request in at most nine steps of
  -- its own, after which the next step of the consumer ends `sl_buffer_seek_cb`.
  pub seek_cb-returned :
      (s : System W)
      → run inner xs (started b' w) ≡ some s
      → s.con.pc ≡ ConAt.s_asleep
      → s.fil.pc ≢ FilAt.done
      → (k : ℕ) × (k ≤ 9)
        × Ensures
            (λ s'. Ensures (λ t. t.con.pc ≡ ConAt.idle) (step inner consumer s'))
            (run inner (fill_steps k) s)
  seek_cb-returned s e asleep going =
      seek-returns inner content at i s asleep going
        (subst (Ensures (Holds content at)) e created-Holds)

  -- With an allocator that keeps to its documentation, a size below `SIZE_MAX`, a step below `2
  -- ^ 64` and an inner stream at its start that keeps the contracts of `sl_read_cb_t` and
  -- `sl_seek_cb_t`, after `sl_buffer_create2` made a stream, `sl_buffer_threaded_fill_buffer`
  -- started its filler, and the consumer made any seeks with `SL_SEEK_SET` and reads, each of a
  -- `size_t` into a block that has room, in any order of the threads' steps: while a read
  -- sleeps, and if the stream's step is not 0, the filler wakes it in at most eight steps of
  -- its own.
  pub read_cb-woken :
      (s : System W)
      → run inner xs (started b' w) ≡ some s
      → s.con.pc ≡ ConAt.r_asleep
      → 0 < s.stream.step_size
      → (k : ℕ) × (k ≤ 8) × Ensures (λ s'. s'.con.pc ≡ ConAt.r_wait) (run inner (fill_steps k) s)
  read_cb-woken s e asleep positive =
      read-wakes inner content at i s asleep positive
        (subst (Ensures (Holds content at)) e created-Holds)
