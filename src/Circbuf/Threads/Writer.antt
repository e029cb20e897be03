-- ===== src/Circbuf/Threads/Writer.antt =====
-- Every step of the writer's thread keeps the invariant.
use libstreamlike.Common.{
  ℕ, ◌+◌, ◌-◌, ◌<◌, ◌≡◌, ◌∙◌, refl, sym, ap, arith, ◌⊎◌, inl, inr, Bool, Bool-cases, true, false,
  not, ltb, ◌&&◌, if◌then◌else◌, List, ◌++◌, Ensures, add_size-eq, sub_size-eq,
}
use mathlib.Core.List.{append_assoc}
use native.Mathlib.Nat.{le_refl}
use libstreamlike.Memory.{bytes, bytes-append, bytes-ext}
use libstreamlike.Circbuf.State.{used, place, contents}
use libstreamlike.Circbuf.Write.{Stored}
use libstreamlike.Circbuf.Write.Plain.{IsStored, write_some_-IsStored}
use libstreamlike.Circbuf.Threads.{
  System, WriteAt, write_to, write_step, wake_writer, write_close, no_room,
}
use libstreamlike.Circbuf.Threads.Inv.{received, sent, IsPast, IsPut, WriterInv, Inv}
use libstreamlike.Circbuf.Threads.Offsets.{
  used-lt, place-IsValid, used-place, place-used, place-past,
}
use libstreamlike.Circbuf.Threads.Others.{
  woff-ReaderInv, wdone-ReaderInv, rdone-WriterInv, mem-ReaderInv, wdone-WriterInv,
}

module _ {before : List ℕ} {s : System} (inv : Inv before s) where
  open inv use {shaped, reads, writes, fifo}

  write_to-Inv :
      (pc : WriteAt) → WriterInv pc s.cbuf (record s.pro { pc = pc }) → Inv before (write_to s pc)
  write_to-Inv pc h = record {
    shaped = record {
      sound = shaped.sound;
      con_room = shaped.con_room;
      con_small = shaped.con_small;
      got_le = shaped.got_le;
      pro_room = shaped.pro_room;
      pro_small = shaped.pro_small;
      put_le = shaped.put_le;
    };
    reads = reads;
    writes = h;
    fifo = fifo;
  }

  -- A step that goes one of two ways
  either-Inv :
      (b : Bool) (p q : WriteAt)
      → (b ≡ true → Inv before (write_to s p))
      → (b ≡ false → Inv before (write_to s q))
      → Inv before (write_to s (if b then p else q))
  either-Inv true p q h k = h refl
  either-Inv false p q h k = k refl

  enter-Inv : Ensures (Inv before) (write_step WriteAt.enter s)
  unfolding write_step
  enter-Inv =
      either-Inv s.cbuf.rdone _ _ (λ e. write_to-Inv WriteAt.done (inr e))
        (λ ne. write_to-Inv WriteAt.head tt)

  head-Inv : Ensures (Inv before) (write_step WriteAt.head s)
  unfolding write_step
  head-Inv =
      either-Inv (ltb s.pro.put s.pro.len && not s.cbuf.rdone) _ _
        (λ e. write_to-Inv WriteAt.wait tt)
        (λ e. write_to-Inv WriteAt.done (done_or_closed s.cbuf.rdone e))
    where
      done_or_closed :
          (b : Bool)
          → (ltb s.pro.put s.pro.len && not b) ≡ false
          → (s.pro.put ≡ s.pro.len) ⊎ (b ≡ true)
      done_or_closed true h = inr refl
      done_or_closed false h = inl (ground (arith, shaped.put_le))

  wait-Inv : Ensures (Inv before) (write_step WriteAt.wait s)
  unfolding write_step
  wait-Inv =
      either-Inv (no_room s.cbuf && not s.cbuf.rdone) _ _
        (λ e.
          write_to-Inv WriteAt.asleep
            (ground (arith, shaped.sound.valid, add_size-eq s.cbuf.woff 1), ground arith))
        (λ ne. write_to-Inv WriteAt.gate tt)

  gate-Inv : Ensures (Inv before) (write_step WriteAt.gate s)
  unfolding write_step
  gate-Inv =
      either-Inv s.cbuf.rdone _ _ (λ e. write_to-Inv WriteAt.head tt)
        (λ ne. write_to-Inv WriteAt.snap tt)

  snap-Inv : Ensures (Inv before) (write_step WriteAt.snap s)
  unfolding write_step
  snap-Inv =
      write_to-Inv (WriteAt.copy s.cbuf.roff)
        (record { valid = shaped.sound.valid; less = le_refl _; ahead = inl (omega arith) })

  -- What the writer has stored is behind the queue, though it went by a `roff` of the past.
  stored-Inv :
      (r : ℕ) (t : Stored)
      → IsPast s.cbuf.size s.cbuf.roff s.cbuf.woff r
      → IsStored s.cbuf.mem s.cbuf.size s.pro.src
          (s.pro.from + s.pro.put)
          (s.pro.len - s.pro.put)
          r
          s.cbuf.woff
          t
      → Inv before (record s {
        cbuf = record s.cbuf { mem = t.mem };
        pro = record s.pro { pc = WriteAt.publish t.woff t.count };
      })
  stored-Inv r t h p = record {
    shaped = record {
      sound = record { whole = p.len_eq ∙ shaped.sound.whole; valid = shaped.sound.valid };
      con_room = shaped.con_room;
      con_small = shaped.con_small;
      got_le = shaped.got_le;
      pro_room = shaped.pro_room;
      pro_small = shaped.pro_small;
      put_le = shaped.put_le;
    };
    reads = mem-ReaderInv s.cbuf s.con t.mem kept s.con.pc reads;
    writes = record {
      ahead = p.moved;
      free = omega (arith, room, h.less);
      fits = omega (arith, p.counted, shaped);
      stored = λ i l.
          ap t.mem.at (place-used _ _ _ h.valid t.count room i l)
          ∙ sym (p.added i l)
          ∙ ap s.pro.src.at (omega arith);
    };
    fifo = ap (λ l. received s.con ++ l) (bytes-ext _ _ _ kept) ∙ fifo;
  }
    where
      room : used s.cbuf.size r s.cbuf.woff + t.count < s.cbuf.size
      room = omega (arith, p.counted, used-lt s.cbuf.size r s.cbuf.woff h.valid)

      kept :
          (i : ℕ)
          → i < used s.cbuf.size s.cbuf.roff s.cbuf.woff
          → t.mem.at (place s.cbuf.size s.cbuf.roff i)
            ≡ s.cbuf.mem.at (place s.cbuf.size s.cbuf.roff i)
      kept i l =
          let e = place-past s.cbuf.size s.cbuf.roff s.cbuf.woff shaped.sound.valid r i h l in
          ap t.mem.at e ∙ p.kept _ (omega (arith, h.less)) ∙ sym (ap s.cbuf.mem.at e)

  copy-Inv :
      (r : ℕ)
      → IsPast s.cbuf.size s.cbuf.roff s.cbuf.woff r
      → Ensures (Inv before) (write_step (WriteAt.copy r) s)
  unfolding write_step
  copy-Inv r h =
      let (t, e, p) =
        write_some_-IsStored s.cbuf.mem s.cbuf.size s.pro.src (s.pro.from + s.pro.put)
          (s.pro.len - s.pro.put) r s.cbuf.woff h.valid shaped.sound.whole (omega (arith, shaped))
          (omega (arith, shaped)) in
      rw (sub_size-eq s.pro.len s.pro.put (omega (arith, shaped)) (omega (arith, shaped)), e)
        (stored-Inv r t h p)

  publish-Inv :
      (w n : ℕ) → IsPut s.cbuf s.pro w n → Ensures (Inv before) (write_step (WriteAt.publish w n) s)
  unfolding write_step
  publish-Inv w n h =
      rw (add_size-eq s.pro.put n (omega (arith, shaped, h.fits)), h.ahead)
        (record {
          shaped = record {
            sound = record {
              whole = shaped.sound.whole;
              valid = place-IsValid _ _ _ shaped.sound.valid n h.free;
            };
            con_room = shaped.con_room;
            con_small = shaped.con_small;
            got_le = shaped.got_le;
            pro_room = shaped.pro_room;
            pro_small = shaped.pro_small;
            put_le = h.fits;
          };
          reads = woff-ReaderInv s.cbuf s.con n _ shaped.sound h.free s.con.pc reads;
          writes = tt;
          fifo =
              ap (λ l. received s.con ++ l)
                (sym (
                  bytes-append _ next _ _ n _ (used-place _ _ _ shaped.sound.valid n h.free)
                    (λ i l. refl)
                    (λ i l.
                      sym (h.stored i l)
                      ∙ ap s.cbuf.mem.at (place-used _ _ _ shaped.sound.valid n h.free i l))))
              ∙ sym (append_assoc (received s.con) (contents s.cbuf) (bytes next n))
              ∙ ap (λ l. l ++ bytes next n) fifo
              ∙ append_assoc before (sent s.pro) (bytes next n)
              ∙ ap (λ l. before ++ l)
                  (bytes-append _ next _ s.pro.put n _ refl (λ i l. refl) (λ i l. refl));
        })
    where
      next : ℕ → ℕ
      next i = s.pro.src.at (s.pro.from + (s.pro.put + i))

  -- A step of `circbuf_write` does not leave a block, and keeps the invariant.
  pub write_step-Inv :
      (pc : WriteAt) → WriterInv pc s.cbuf s.pro → Ensures (Inv before) (write_step pc s)
  unfolding write_step
  write_step-Inv WriteAt.enter h = enter-Inv
  write_step-Inv WriteAt.head h = head-Inv
  write_step-Inv WriteAt.wait h = wait-Inv
  write_step-Inv WriteAt.asleep h = inv
  write_step-Inv WriteAt.gate h = gate-Inv
  write_step-Inv WriteAt.snap h = snap-Inv
  write_step-Inv (WriteAt.copy r) h = copy-Inv r h
  write_step-Inv (WriteAt.publish w n) h = publish-Inv w n h
  write_step-Inv WriteAt.done h = inv

  -- Waking unasked keeps it too.
  pub writer_wakes-Inv : Inv before (write_to s (wake_writer s.pro.pc))
  writer_wakes-Inv =
      write_to-Inv (wake_writer s.pro.pc)
        (rdone-WriterInv s.cbuf s.pro s.cbuf.rdone _ (λ e. e) s.pro.pc writes)

  -- So does closing the writer's end.
  pub write_close-Inv : (pc : WriteAt) → Inv before (write_close pc s)
  unfolding write_close
  write_close-Inv WriteAt.done = elim (Bool-cases s.cbuf.wdone) [
    | inl e ↦ simp e inv
    | inr e ↦ simp e (record {
      shaped = record {
        sound = record { whole = shaped.sound.whole; valid = shaped.sound.valid };
        con_room = shaped.con_room;
        con_small = shaped.con_small;
        got_le = shaped.got_le;
        pro_room = shaped.pro_room;
        pro_small = shaped.pro_small;
        put_le = shaped.put_le;
      };
      reads = wdone-ReaderInv s.cbuf s.con true _ (λ _. refl) s.con.pc reads;
      writes = wdone-WriterInv s.cbuf s.pro true s.pro.pc writes;
      fifo = fifo;
    })
  ]
  write_close-Inv _ = inv
