-- ===== src/Circbuf/Threads/Reader.antt =====
-- Every step of the reader's thread keeps the invariant.
use libstreamlike.Common.{
  ℕ, ◌+◌, ◌-◌, ◌≡◌, ◌∙◌, refl, sym, ap, arith, inl, inr, Bool-cases, true, false, not, Bool, ltb,
  ◌==◌, ◌&&◌, if◌then◌else◌, List, ◌++◌, Ensures, add_size-eq, sub_size-eq,
}
use mathlib.Core.List.{append_assoc}
use native.Mathlib.Nat.{le_refl}
use libstreamlike.Memory.{bytes, bytes-append, bytes-ext}
use libstreamlike.Circbuf.State.{contents}
use libstreamlike.Circbuf.Read.Plain.{read_some_-IsTaken}
use libstreamlike.Circbuf.Threads.{System, ReadAt, read_to, read_step, wake_reader, read_close}
use libstreamlike.Circbuf.Threads.Inv.{received, IsBehind, IsCopied, ReaderInv, Inv}
use libstreamlike.Circbuf.Threads.Offsets.{ahead-IsValid, used-ahead, place-ahead}
use libstreamlike.Circbuf.Threads.Others.{
  roff-WriterInv, rdone-WriterInv, rdone-ReaderInv, wdone-ReaderInv,
}

module _ {before : List ℕ} {s : System} (inv : Inv before s) where
  open inv use {shaped, reads, writes, fifo}

  read_to-Inv :
      (pc : ReadAt) → ReaderInv pc s.cbuf (record s.con { pc = pc }) → Inv before (read_to s pc)
  read_to-Inv pc h = record {
    shaped = record {
      sound = shaped.sound;
      con_room = shaped.con_room;
      con_small = shaped.con_small;
      got_le = shaped.got_le;
      pro_room = shaped.pro_room;
      pro_small = shaped.pro_small;
      put_le = shaped.put_le;
    };
    reads = h;
    writes = writes;
    fifo = fifo;
  }

  -- A step that goes one of two ways
  either-Inv :
      (b : Bool) (p q : ReadAt)
      → (b ≡ true → Inv before (read_to s p))
      → (b ≡ false → Inv before (read_to s q))
      → Inv before (read_to s (if b then p else q))
  either-Inv true p q h k = h refl
  either-Inv false p q h k = k refl

  head-Inv : Ensures (Inv before) (read_step ReadAt.head s)
  unfolding read_step
  head-Inv =
      either-Inv (ltb s.con.got s.con.want) _ _
        (λ lt.
          either-Inv (s.cbuf.roff == s.cbuf.woff) _ _ (λ e. read_to-Inv ReadAt.ask_done tt)
            (λ ne. read_to-Inv ReadAt.wait tt))
        (λ ge. read_to-Inv ReadAt.done (inl (ground (arith, shaped.got_le))))

  ask_done-Inv : Ensures (Inv before) (read_step ReadAt.ask_done s)
  unfolding read_step
  ask_done-Inv =
      either-Inv s.cbuf.wdone _ _ (λ e. read_to-Inv ReadAt.done (inr e))
        (λ ne. read_to-Inv ReadAt.wait tt)

  wait-Inv : Ensures (Inv before) (read_step ReadAt.wait s)
  unfolding read_step
  wait-Inv =
      either-Inv ((s.cbuf.roff == s.cbuf.woff) && not s.cbuf.wdone) _ _
        (λ e. read_to-Inv ReadAt.asleep (ground arith, ground arith))
        (λ ne. read_to-Inv ReadAt.snap tt)

  snap-Inv : Ensures (Inv before) (read_step ReadAt.snap s)
  unfolding read_step
  snap-Inv =
      read_to-Inv (ReadAt.copy s.cbuf.woff)
        (record { valid = shaped.sound.valid; less = le_refl _ })

  copy-Inv :
      (w : ℕ)
      → IsBehind s.cbuf.size s.cbuf.roff s.cbuf.woff w
      → Ensures (Inv before) (read_step (ReadAt.copy w) s)
  unfolding read_step
  copy-Inv w h =
      let base = s.con.base + s.con.got in
      let (t, e, p) =
        read_some_-IsTaken s.cbuf.mem s.cbuf.size s.con.buf base (s.con.want - s.con.got)
          s.cbuf.roff w h.valid shaped.sound.whole (omega (arith, shaped))
          (omega (arith, shaped)) in
      rw (sub_size-eq s.con.want s.con.got (omega (arith, shaped)) (omega (arith, shaped)), e)
        (record {
          shaped = record {
            sound = shaped.sound;
            con_room = omega (arith, shaped, p.len_eq);
            con_small = shaped.con_small;
            got_le = shaped.got_le;
            pro_room = shaped.pro_room;
            pro_small = shaped.pro_small;
            put_le = shaped.put_le;
          };
          reads = record {
            ahead = p.moved;
            inside = p.valid.roff_le;
            n_le = omega (arith, p.counted, h.less);
            fits = omega (arith, p.counted, shaped);
            copied = λ i l. ap t.buf.at (omega arith) ∙ p.copied i l;
          };
          writes = writes;
          fifo =
              ap (λ l. l ++ contents s.cbuf)
                (bytes-ext _ _ s.con.got (λ i l. p.frame (s.con.base + i) (inl (omega arith))))
              ∙ fifo;
        })

  publish-Inv :
      (r n : ℕ)
      → IsCopied s.cbuf s.con r n
      → Ensures (Inv before) (read_step (ReadAt.publish r n) s)
  unfolding read_step
  publish-Inv r n h = rw (add_size-eq s.con.got n (omega (arith, shaped, h.fits))) (record {
    shaped = record {
      sound = record {
        whole = shaped.sound.whole;
        valid = ahead-IsValid _ _ _ shaped.sound.valid n r h.ahead h.inside h.n_le;
      };
      con_room = shaped.con_room;
      con_small = shaped.con_small;
      got_le = h.fits;
      pro_room = shaped.pro_room;
      pro_small = shaped.pro_small;
      put_le = shaped.put_le;
    };
    reads = tt;
    writes = roff-WriterInv s.cbuf s.pro r n _ shaped.sound h.ahead h.inside h.n_le s.pro.pc writes;
    fifo =
        ap (λ l. l ++ rest)
          (sym (
            bytes-append _ (λ i. s.con.buf.at (s.con.base + (s.con.got + i))) _ s.con.got n _ refl
              (λ i l. refl) (λ i l. refl)))
        ∙ append_assoc (received s.con) front rest
        ∙ ap (λ l. received s.con ++ l)
            (bytes-append _ _ _ n _ _
              (used-ahead _ _ _ shaped.sound.valid n r h.ahead h.inside h.n_le) h.copied
              (λ i l.
                ap s.cbuf.mem.at
                  (place-ahead _ _ _ shaped.sound.valid n r h.ahead h.inside h.n_le i l)))
        ∙ fifo;
  })
    where
      front : List ℕ
      front = bytes (λ i. s.con.buf.at (s.con.base + (s.con.got + i))) n

      rest : List ℕ
      rest = contents (record s.cbuf { roff = r })

  -- A step of `circbuf_read` does not leave a block, and keeps the invariant.
  pub read_step-Inv :
      (pc : ReadAt) → ReaderInv pc s.cbuf s.con → Ensures (Inv before) (read_step pc s)
  unfolding read_step
  read_step-Inv ReadAt.head h = head-Inv
  read_step-Inv ReadAt.ask_done h = ask_done-Inv
  read_step-Inv ReadAt.wait h = wait-Inv
  read_step-Inv ReadAt.asleep h = inv
  read_step-Inv ReadAt.snap h = snap-Inv
  read_step-Inv (ReadAt.copy w) h = copy-Inv w h
  read_step-Inv (ReadAt.publish r n) h = publish-Inv r n h
  read_step-Inv ReadAt.done h = inv

  -- Waking unasked keeps it too.
  pub reader_wakes-Inv : Inv before (read_to s (wake_reader s.con.pc))
  reader_wakes-Inv =
      read_to-Inv (wake_reader s.con.pc)
        (wdone-ReaderInv s.cbuf s.con s.cbuf.wdone _ (λ e. e) s.con.pc reads)

  -- So does closing the reader's end.
  pub read_close-Inv : (pc : ReadAt) → Inv before (read_close pc s)
  unfolding read_close
  read_close-Inv ReadAt.done = elim (Bool-cases s.cbuf.rdone) [
    | inl e ↦ simp e inv
    | inr e ↦ simp e (record {
      shaped = record {
        sound = record { whole = shaped.sound.whole; valid = shaped.sound.valid };
        con_room = shaped.con_room;
        con_small = shaped.con_small;
        got_le = shaped.got_le;
        pro_room = shaped.pro_room;
        pro_small = shaped.pro_small;
        put_le = shaped.put_le;
      };
      reads = rdone-ReaderInv s.cbuf s.con true s.con.pc reads;
      writes = rdone-WriterInv s.cbuf s.pro true _ (λ _. refl) s.pro.pc writes;
      fifo = fifo;
    })
  ]
  read_close-Inv _ = inv
