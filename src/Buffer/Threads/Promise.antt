-- ===== src/Buffer/Threads/Promise.antt =====
-- What a buffered stream promises between two steps, from what holds there.
use libstreamlike.Common.{
  ℕ, ◌+◌, ◌≤◌, ◌<◌, ◌≡◌, ◌⊎◌, ◌∙◌, refl, ap, subst, arith, Bool, true, false, inl, inr, ℤ, eq_ℤ,
}
use libstreamlike.Memory.{bytes}
use libstreamlike.Circbuf.State.{used, IsValid, IsCircbuf}
use libstreamlike.Buffer.{Buffer, tell_cb}
use libstreamlike.Buffer.Machine.{System, Consumer, ConAt, FilAt}
use libstreamlike.Buffer.Threads.Inv.{ConInv, FilInv, Inv}

-- The consumer is in `sl_buffer_read_cb`.
abbrev pub is_reading : ConAt → Bool
is_reading ConAt.r_head = true
is_reading ConAt.r_ask = true
is_reading ConAt.r_wait = true
is_reading ConAt.r_asleep = true
is_reading ConAt.r_round = true
is_reading ConAt.r_finish = true
is_reading _ = false

-- The filler does not move by itself, and will not be woken but by the consumer.
abbrev pub is_idle : FilAt → Bool
is_idle FilAt.asleep = true
is_idle FilAt.asleep_eof = true
is_idle FilAt.done = true
is_idle _ = false

-- The first `con.got` bytes behind the consumer's pointer are those of the inner stream from `k` on.
abbrev pub IsCopied : (ℕ → ℕ) → ℕ → Consumer → Type 0
IsCopied content k con =
    bytes (λ i. con.buf.at (con.base + i)) con.got ≡ bytes (λ i. content (k + i)) con.got

-- What a buffered stream promises at any moment, over an inner stream whose byte at `i` is `content i`
pub record IsBuffering {W : Type 0} (content : ℕ → ℕ) (s : System W) : Type 0 where
  pub sound : IsCircbuf s.stream.cbuf
  pub got_le : s.con.got ≤ s.con.want
  pub reading :
      is_reading s.con.pc ≡ true → (k : ℕ) × (tell_cb s.stream ≡ ℤ.pos k) × IsCopied content k s.con
  pub returned :
      s.con.pc ≡ ConAt.returned
      → (k : ℕ) × (tell_cb s.stream ≡ ℤ.pos (k + s.con.got)) × IsCopied content k s.con
  pub short : s.con.pc ≡ ConAt.returned → s.con.got < s.con.want → s.stream.cbuf.wdone ≡ true
  pub read_moves : s.con.pc ≡ ConAt.r_asleep → is_idle s.fil.pc ≡ false
  pub seek_moves :
      s.con.pc ≡ ConAt.s_asleep
      → (is_idle s.fil.pc ≡ false)
        ⊎ ((s.fil.pc ≡ FilAt.done) × (eq_ℤ s.stream.seek_result 0 ≡ false))

-- An empty buffer is not full.
pub not_both :
    {size roff woff : ℕ} → roff ≡ woff → used size roff woff + 1 ≡ size → ¬ IsValid size roff woff
not_both e f v = ground arith

-- An empty buffer that is written to leaves the filler no place to stay.
read_wakes :
    (pc : FilAt) (b : Buffer)
    → IsCircbuf b.cbuf
    → (b.cbuf.roff ≡ b.cbuf.woff) × (b.cbuf.wdone ≡ false)
    → FilInv pc b
    → is_idle pc ≡ false
read_wakes FilAt.start b v e h = refl
read_wakes FilAt.test b v e h = refl
read_wakes FilAt.test_seek b v e h = refl
read_wakes FilAt.ask b v e h = refl
read_wakes FilAt.seek b v e h = refl
read_wakes FilAt.serve b v e h = refl
read_wakes FilAt.enter b v e h = refl
read_wakes FilAt.head b v e h = refl
read_wakes FilAt.wait b v e h = refl
read_wakes FilAt.asleep b v e (p, f, r) = absurd (not_both e.0 f v.valid)
read_wakes FilAt.gate b v e h = refl
read_wakes FilAt.round b v e h = refl
read_wakes FilAt.short b v e h = refl
read_wakes FilAt.asleep_eof b v e (p, w, r) = absurd (grind (arith, e.1, w))
read_wakes FilAt.eof_woken b v e h = refl
read_wakes FilAt.done b v e (p, z, w, r) = absurd (grind (arith, e.1, w))

-- A closed end leaves it none but the end of its thread.
seek_wakes :
    (pc : FilAt) (b : Buffer)
    → b.cbuf.rdone ≡ true
    → FilInv pc b
    → (is_idle pc ≡ false) ⊎ ((pc ≡ FilAt.done) × (eq_ℤ b.seek_result 0 ≡ false))
seek_wakes FilAt.start b e h = inl refl
seek_wakes FilAt.test b e h = inl refl
seek_wakes FilAt.test_seek b e h = inl refl
seek_wakes FilAt.ask b e h = inl refl
seek_wakes FilAt.seek b e h = inl refl
seek_wakes FilAt.serve b e h = inl refl
seek_wakes FilAt.enter b e h = inl refl
seek_wakes FilAt.head b e h = inl refl
seek_wakes FilAt.wait b e h = inl refl
seek_wakes FilAt.asleep b e (p, f, r) = absurd (grind (arith, e, r))
seek_wakes FilAt.gate b e h = inl refl
seek_wakes FilAt.round b e h = inl refl
seek_wakes FilAt.short b e h = inl refl
seek_wakes FilAt.asleep_eof b e (p, w, r) = absurd (grind (arith, e, r))
seek_wakes FilAt.eof_woken b e h = inl refl
seek_wakes FilAt.done b e (p, z, w, r) = inr (refl, z)

module _ (content : ℕ → ℕ) (next : ℕ) where
  reading_pos :
      (pc : ConAt) (b : Buffer) (con : Consumer)
      → ConInv content next pc b con
      → is_reading pc ≡ true
      → (k : ℕ) × (b.pos ≡ ℤ.pos k) × IsCopied content k con
  reading_pos ConAt.idle b con h e = cc
  reading_pos ConAt.returned b con h e = cc
  reading_pos ConAt.r_head b con (q, (k, p, g)) e = (k, p, g.1)
  reading_pos ConAt.r_ask b con (q, (k, p, g)) e = (k, p, g.1)
  reading_pos ConAt.r_wait b con (q, (k, p, g)) e = (k, p, g.1)
  reading_pos ConAt.r_asleep b con ((q, (k, p, g)), h, w) e = (k, p, g.1)
  reading_pos ConAt.r_round b con (q, (k, p, g)) e = (k, p, g.1)
  reading_pos ConAt.r_finish b con ((q, (k, p, g)), h) e = (k, p, g.1)
  reading_pos ConAt.s_lock b con h e = cc
  reading_pos ConAt.s_close b con h e = cc
  reading_pos ConAt.s_asleep b con h e = cc
  reading_pos ConAt.s_woken b con h e = cc

  pub holds-IsBuffering :
      {W : Type 0} {at : W → ℕ} (s : System W) → Inv content at next s → IsBuffering content s
  unfolding tell_cb
  holds-IsBuffering s inv =
      let cons : (pc : ConAt) → s.con.pc ≡ pc → ConInv content next pc s.stream s.con =
        λ pc e. subst (λ x. ConInv content next x s.stream s.con) e inv.cons in
      record {
        sound = inv.sound;
        got_le = inv.shaped.got_le;
        reading = reading_pos s.con.pc s.stream s.con inv.cons;
        returned = λ e. let (q, p, (k, g), t) = cons ConAt.returned e in (k, p ∙ ap ℤ.pos g.0, g.1);
        short = λ e. (cons ConAt.returned e).3;
        read_moves = λ e.
            read_wakes s.fil.pc s.stream inv.sound
              ((cons ConAt.r_asleep e).1, (cons ConAt.r_asleep e).2) inv.fils;
        seek_moves = λ e. seek_wakes s.fil.pc s.stream (cons ConAt.s_asleep e).2 inv.fils;
      }
