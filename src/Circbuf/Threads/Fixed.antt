-- ===== src/Circbuf/Threads/Fixed.antt =====
-- The arguments of both calls stay what they are.
use libstreamlike.Common.{
  ◌≡◌, ◌∙◌, refl, Bool, true, false, if◌then◌else◌, List, [], ◌∷◌, Option, none, some, ◌>>=◌,
}
use libstreamlike.Circbuf.Read.{Taken}
use libstreamlike.Circbuf.Write.{Stored}
use libstreamlike.Circbuf.Threads.{
  System, ReadAt, WriteAt, Choice, reader, writer, reader_wakes, writer_wakes, reader_closes,
  writer_closes, read_step, write_step, read_close, write_close, step, run,
}

pub record IsSame (s s' : System) : Type 0 where
  pub base : s'.con.base ≡ s.con.base
  pub want : s'.con.want ≡ s.con.want
  pub src : s'.pro.src ≡ s.pro.src
  pub from : s'.pro.from ≡ s.pro.from
  pub len : s'.pro.len ≡ s.pro.len

abbrev same : (s : System) → IsSame s s
same s = record { base = refl; want = refl; src = refl; from = refl; len = refl }

-- Where the code returns, it returns with the same arguments.
abbrev pub Keeps : System → Option System → Type 0
Keeps s none = Unit
Keeps s (some s') = IsSame s s'

read_step-Keeps : (s : System) (pc : ReadAt) → Keeps s (read_step pc s)
unfolding read_step
read_step-Keeps s (ReadAt.copy w) = go _
  where
    go :
        (o : Option Taken)
        → Keeps s (
            o >>= λ t.
            some
              (record s { con = record s.con { buf = t.buf; pc = ReadAt.publish t.roff t.count } }))
    go none = tt
    go (some t) = record { base = refl; want = refl; src = refl; from = refl; len = refl }
read_step-Keeps s _ = record { base = refl; want = refl; src = refl; from = refl; len = refl }

write_step-Keeps : (s : System) (pc : WriteAt) → Keeps s (write_step pc s)
unfolding write_step
write_step-Keeps s (WriteAt.copy w) = go _
  where
    go :
        (o : Option Stored)
        → Keeps s (
            o >>= λ t. some (record s {
              cbuf = record s.cbuf { mem = t.mem };
              pro = record s.pro { pc = WriteAt.publish t.woff t.count };
            }))
    go none = tt
    go (some t) = record { base = refl; want = refl; src = refl; from = refl; len = refl }
write_step-Keeps s _ = record { base = refl; want = refl; src = refl; from = refl; len = refl }

either :
    {s : System} (b : Bool) {p q : System} → IsSame s p → IsSame s q → IsSame s (if b then p else q)
either true h k = h
either false h k = k

read_close-Keeps : (s : System) (pc : ReadAt) → IsSame s (read_close pc s)
unfolding read_close
read_close-Keeps s ReadAt.done =
    either s.cbuf.rdone (same s)
      (record { base = refl; want = refl; src = refl; from = refl; len = refl })
read_close-Keeps s _ = same s

write_close-Keeps : (s : System) (pc : WriteAt) → IsSame s (write_close pc s)
unfolding write_close
write_close-Keeps s WriteAt.done =
    either s.cbuf.wdone (same s)
      (record { base = refl; want = refl; src = refl; from = refl; len = refl })
write_close-Keeps s _ = same s

step-Keeps : (s : System) (x : Choice) → Keeps s (step x s)
unfolding step
step-Keeps s reader = read_step-Keeps s s.con.pc
step-Keeps s writer = write_step-Keeps s s.pro.pc
step-Keeps s reader_wakes = record { base = refl; want = refl; src = refl; from = refl; len = refl }
step-Keeps s writer_wakes = record { base = refl; want = refl; src = refl; from = refl; len = refl }
step-Keeps s reader_closes = read_close-Keeps s s.con.pc
step-Keeps s writer_closes = write_close-Keeps s s.pro.pc

Keeps-trans : {s t : System} → IsSame s t → (o : Option System) → Keeps t o → Keeps s o
Keeps-trans h none k = tt
Keeps-trans h (some u) k = record {
  base = k.base ∙ h.base;
  want = k.want ∙ h.want;
  src = k.src ∙ h.src;
  from = k.from ∙ h.from;
  len = k.len ∙ h.len;
}

pub run-Keeps : (xs : List Choice) (s : System) → Keeps s (run xs s)
unfolding run
run-Keeps [] s = same s
run-Keeps (x ∷ xs) s = go (λ s'. run-Keeps xs s') (step x s) (step-Keeps s x)
  where
    go :
        ((s' : System) → Keeps s' (run xs s'))
        → (o : Option System) → Keeps s o
        → Keeps s (o >>= λ s'. run xs s')
    go ih none k = tt
    go ih (some s') k = Keeps-trans k (run xs s') (ih s')
