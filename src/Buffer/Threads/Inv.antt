-- ===== src/Buffer/Threads/Inv.antt =====
-- What holds between the steps of the filler and of the consumer.
use libstreamlike.Common.{
  ℕ, ◌+◌, ◌≤◌, ◌<◌, ◌≡◌, ◌⊎◌, Bool, true, false, if◌then◌else◌, ℤ, eq_ℤ, size_mod,
}
use libstreamlike.Memory.{bytes}
use libstreamlike.Circbuf.{Circbuf}
use libstreamlike.Circbuf.State.{used, contents, IsCircbuf}
use libstreamlike.Buffer.{Buffer}
use libstreamlike.Buffer.Machine.{System, Consumer, ConAt, FilAt}

abbrev pub used_of : Circbuf → ℕ
used_of c = used c.size c.roff c.woff

-- Where `sl_buffer_tell_cb` will point once a seek that has been served has returned
abbrev pub front : Buffer → ℤ
front b = if b.seek_requested then b.pos else if eq_ℤ b.seek_result 0 then b.seek_off else b.pos

module _ (content : ℕ → ℕ) where
  -- The bytes that the read has put into its buffer are those of the inner stream from `k` on, where
  -- the next byte that it gets stands at `next`.
  abbrev pub Got : ℕ → ℕ → Consumer → Type 0
  Got k next con =
      (next ≡ k + con.got)
      × (bytes (λ i. con.buf.at (con.base + i)) con.got ≡ bytes (λ i. content (k + i)) con.got)

  -- In a read that was called at the offset `k`
  abbrev pub IsReading : ℕ → Buffer → Consumer → Type 0
  IsReading next b con = (b.seek_requested ≡ false) × ((k : ℕ) × (b.pos ≡ ℤ.pos k) × Got k next con)

  -- What the consumer knows where it stands. It sleeps in a read only on an empty buffer that is
  -- written to, and in a seek only while that is not served.
  abbrev pub ConInv : ℕ → ConAt → Buffer → Consumer → Type 0
  ConInv next ConAt.idle b con = (b.seek_requested ≡ false) × (b.pos ≡ ℤ.pos next)
  ConInv next ConAt.returned b con =
      (b.seek_requested ≡ false)
      × (b.pos ≡ ℤ.pos next)
      × ((k : ℕ) × Got k next con)
      × (con.got < con.want → b.cbuf.wdone ≡ true)
  ConInv next ConAt.r_asleep b con =
      IsReading next b con × (b.cbuf.roff ≡ b.cbuf.woff) × (b.cbuf.wdone ≡ false)
  ConInv next ConAt.r_finish b con =
      IsReading next b con × (con.got < con.want → b.cbuf.wdone ≡ true)
  ConInv next ConAt.s_lock b con = (b.seek_requested ≡ false) × (b.pos ≡ ℤ.pos next)
  ConInv next ConAt.s_close b con = (b.seek_requested ≡ true) × (b.pos ≡ ℤ.pos next)
  ConInv next ConAt.s_asleep b con =
      (b.seek_requested ≡ true) × (b.pos ≡ ℤ.pos next) × (b.cbuf.rdone ≡ true)
  ConInv next ConAt.s_woken b con =
      (front b ≡ ℤ.pos next) × (b.seek_requested ≡ true → b.cbuf.rdone ≡ true)
  ConInv next _ b con = IsReading next b con

-- Reading is closed only for a request.
abbrev pub IsAsked : Buffer → Type 0
IsAsked b = b.cbuf.rdone ≡ true → b.seek_requested ≡ true

-- Reading is closed for a request, or since a seek has failed.
abbrev pub IsFailed : Buffer → Type 0
IsFailed b = b.cbuf.rdone ≡ true → (b.seek_requested ≡ true) ⊎ (eq_ℤ b.seek_result 0 ≡ false)

-- In the latter case writing is closed too.
abbrev pub IsClosed : Buffer → Type 0
IsClosed b =
    b.cbuf.rdone ≡ true
    → (b.seek_requested ≡ true) ⊎ ((eq_ℤ b.seek_result 0 ≡ false) × (b.cbuf.wdone ≡ true))

-- What the filler knows where it stands. It sleeps only on a full buffer or with writing closed, while
-- reading is open; and it ends only after a seek failed.
abbrev pub FilInv : FilAt → Buffer → Type 0
FilInv FilAt.start b =
    (b.filler_started ≡ false)
    × (b.seek_requested ≡ false)
    × (b.cbuf.rdone ≡ false)
    × (used_of b.cbuf ≡ 0)
FilInv FilAt.test b = (b.filler_started ≡ true) × IsClosed b
FilInv FilAt.test_seek b = (b.filler_started ≡ true) × IsClosed b × (b.cbuf.rdone ≡ true)
FilInv FilAt.seek b = (b.filler_started ≡ true) × (b.seek_requested ≡ true)
FilInv FilAt.serve b = (b.filler_started ≡ true) × (b.seek_requested ≡ true)
FilInv FilAt.enter b = (b.filler_started ≡ true) × IsFailed b
FilInv FilAt.short b = (b.filler_started ≡ true) × IsFailed b
FilInv FilAt.asleep b =
    (b.filler_started ≡ true) × (used_of b.cbuf + 1 ≡ b.cbuf.size) × (b.cbuf.rdone ≡ false)
FilInv FilAt.asleep_eof b =
    (b.filler_started ≡ true) × (b.cbuf.wdone ≡ true) × (b.cbuf.rdone ≡ false)
FilInv FilAt.done b =
    (b.filler_started ≡ true)
    × (eq_ℤ b.seek_result 0 ≡ false)
    × (b.cbuf.wdone ≡ true)
    × (b.cbuf.rdone ≡ true)
FilInv FilAt.eof_woken b = (b.filler_started ≡ true) × (b.cbuf.wdone ≡ true) × IsAsked b
FilInv _ b = (b.filler_started ≡ true) × IsAsked b

-- The filler has made a seek of the inner stream that succeeded, and has not yet reset the buffer.
abbrev pub has_sought : FilAt → ℤ → Bool
has_sought FilAt.serve result = eq_ℤ result 0
has_sought _ result = false

-- The inner stream, at the offset `a`, stands behind the last byte queued, or where it was sought.
pub record IsSynced (next a : ℕ) (pc : FilAt) (b : Buffer) : Type 0 where
  pub behind : has_sought pc b.seek_result ≡ false → a ≡ next + used_of b.cbuf
  pub landed : has_sought pc b.seek_result ≡ true → ℤ.pos a ≡ b.seek_off

-- The calls stay inside the blocks that they are given.
pub record IsShaped (len base want got step_size written : ℕ) (whence : ℤ) : Type 0 where
  pub room : base + want ≤ len
  pub small : want < size_mod
  pub got_le : got ≤ want
  pub step_small : step_size < size_mod
  pub written_le : written ≤ step_size
  pub from_start : whence ≡ ℤ.pos 0

-- The invariant, where the next byte that the consumer gets stands at `next` in the inner stream
pub record Inv {W : Type 0} (content : ℕ → ℕ) (at : W → ℕ) (next : ℕ) (s : System W) : Type 0 where
  pub sound : IsCircbuf s.stream.cbuf
  pub shaped :
      IsShaped s.con.buf.len s.con.base s.con.want s.con.got s.stream.step_size s.fil.written
        s.stream.seek_whence
  pub queued : contents s.stream.cbuf ≡ bytes (λ i. content (next + i)) (used_of s.stream.cbuf)
  pub cons : ConInv content next s.con.pc s.stream s.con
  pub fils : FilInv s.fil.pc s.stream
  pub sync : IsSynced next (at s.world) s.fil.pc s.stream

abbrev pub Holds : {W : Type 0} → (ℕ → ℕ) → (W → ℕ) → System W → Type 0
Holds content at s = (next : ℕ) × Inv content at next s
