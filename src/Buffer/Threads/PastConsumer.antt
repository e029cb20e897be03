-- ===== src/Buffer/Threads/PastConsumer.antt =====
-- What the filler knows, past a step of the consumer.
use libstreamlike.Common.{ℕ, ◌≡◌, inl, inr, Bool-cases, refl, arith, Bool, true, false, ℤ}
use libstreamlike.Buffer.{Buffer}
use libstreamlike.Buffer.Machine.{FilAt, wake_room, wake_eof}
use libstreamlike.Buffer.Threads.Inv.{used_of, FilInv, has_sought}

-- The consumer has taken bytes, which signals that there is room.
pub took-FilInv :
    (pc : FilAt) (b : Buffer) (roff : ℕ)
    → (used_of b.cbuf ≡ 0 → used_of (record b.cbuf { roff = roff }) ≡ 0)
    → FilInv pc b
    → FilInv (wake_room pc) (record b { cbuf = record b.cbuf { roff = roff } })
took-FilInv FilAt.start b roff e (p, q, r, z) = (p, q, r, e z)
took-FilInv FilAt.test b roff e h = h
took-FilInv FilAt.test_seek b roff e h = h
took-FilInv FilAt.ask b roff e h = h
took-FilInv FilAt.seek b roff e h = h
took-FilInv FilAt.serve b roff e h = h
took-FilInv FilAt.enter b roff e h = h
took-FilInv FilAt.head b roff e h = h
took-FilInv FilAt.wait b roff e h = h
took-FilInv FilAt.asleep b roff e (p, q, r) = (p, λ f. absurd (grind (arith, r, f)))
took-FilInv FilAt.gate b roff e h = h
took-FilInv FilAt.round b roff e h = h
took-FilInv FilAt.short b roff e h = h
took-FilInv FilAt.asleep_eof b roff e h = h
took-FilInv FilAt.eof_woken b roff e h = h
took-FilInv FilAt.done b roff e h = h

-- A request for a seek is made, once the filler has started.
pub requested-FilInv :
    (pc : FilAt) (b : Buffer)
    → b.filler_started ≡ true
    → FilInv pc b
    → FilInv pc (record b { seek_requested = true })
requested-FilInv FilAt.start b s (p, q, r, z) = absurd (grind (arith, s, p))
requested-FilInv FilAt.test b s (p, h) = (p, λ f. inl refl)
requested-FilInv FilAt.test_seek b s (p, h, r) = (p, (λ f. inl refl), r)
requested-FilInv FilAt.ask b s (p, h) = (p, λ f. refl)
requested-FilInv FilAt.seek b s (p, h) = (p, refl)
requested-FilInv FilAt.serve b s (p, h) = (p, refl)
requested-FilInv FilAt.enter b s (p, h) = (p, λ f. inl refl)
requested-FilInv FilAt.head b s (p, h) = (p, λ f. refl)
requested-FilInv FilAt.wait b s (p, h) = (p, λ f. refl)
requested-FilInv FilAt.asleep b s h = h
requested-FilInv FilAt.gate b s (p, h) = (p, λ f. refl)
requested-FilInv FilAt.round b s (p, h) = (p, λ f. refl)
requested-FilInv FilAt.short b s (p, h) = (p, λ f. inl refl)
requested-FilInv FilAt.asleep_eof b s h = h
requested-FilInv FilAt.eof_woken b s (p, w, h) = (p, w, λ f. refl)
requested-FilInv FilAt.done b s h = h

-- Reading is closed for a request, which wakes the filler.
pub closed-FilInv :
    (pc : FilAt) (b : Buffer)
    → b.seek_requested ≡ true
    → FilInv pc b
    → FilInv (wake_eof (wake_room pc)) (record b { cbuf = record b.cbuf { rdone = true } })
closed-FilInv FilAt.start b s (p, q, r, z) = absurd (grind (arith, s, q))
closed-FilInv FilAt.test b s (p, h) = (p, λ f. inl s)
closed-FilInv FilAt.test_seek b s (p, h, r) = (p, (λ f. inl s), refl)
closed-FilInv FilAt.ask b s (p, h) = (p, λ f. s)
closed-FilInv FilAt.seek b s h = h
closed-FilInv FilAt.serve b s h = h
closed-FilInv FilAt.enter b s (p, h) = (p, λ f. inl s)
closed-FilInv FilAt.head b s (p, h) = (p, λ f. s)
closed-FilInv FilAt.wait b s (p, h) = (p, λ f. s)
closed-FilInv FilAt.asleep b s (p, q, r) = (p, λ f. s)
closed-FilInv FilAt.gate b s (p, h) = (p, λ f. s)
closed-FilInv FilAt.round b s (p, h) = (p, λ f. s)
closed-FilInv FilAt.short b s (p, h) = (p, λ f. inl s)
closed-FilInv FilAt.asleep_eof b s (p, w, h) = (p, w, λ f. s)
closed-FilInv FilAt.eof_woken b s (p, w, h) = (p, w, λ f. s)
closed-FilInv FilAt.done b s (p, q, w, r) = (p, q, w, refl)

-- The filler wakes unasked.
pub woken-FilInv : (pc : FilAt) (b : Buffer) → FilInv pc b → FilInv (wake_eof (wake_room pc)) b
woken-FilInv FilAt.start b h = h
woken-FilInv FilAt.test b h = h
woken-FilInv FilAt.test_seek b h = h
woken-FilInv FilAt.ask b h = h
woken-FilInv FilAt.seek b h = h
woken-FilInv FilAt.serve b h = h
woken-FilInv FilAt.enter b h = h
woken-FilInv FilAt.head b h = h
woken-FilInv FilAt.wait b h = h
woken-FilInv FilAt.asleep b (p, q, r) = (p, λ f. absurd (grind (arith, r, f)))
woken-FilInv FilAt.gate b h = h
woken-FilInv FilAt.round b h = h
woken-FilInv FilAt.short b h = h
woken-FilInv FilAt.asleep_eof b (p, w, r) = (p, w, λ f. absurd (grind (arith, r, f)))
woken-FilInv FilAt.eof_woken b h = h
woken-FilInv FilAt.done b h = h

-- Waking changes nothing of what the filler has sought.
pub has_sought-room : (pc : FilAt) (z : ℤ) → has_sought (wake_room pc) z ≡ has_sought pc z
has_sought-room FilAt.start z = refl
has_sought-room FilAt.test z = refl
has_sought-room FilAt.test_seek z = refl
has_sought-room FilAt.ask z = refl
has_sought-room FilAt.seek z = refl
has_sought-room FilAt.serve z = refl
has_sought-room FilAt.enter z = refl
has_sought-room FilAt.head z = refl
has_sought-room FilAt.wait z = refl
has_sought-room FilAt.asleep z = refl
has_sought-room FilAt.gate z = refl
has_sought-room FilAt.round z = refl
has_sought-room FilAt.short z = refl
has_sought-room FilAt.asleep_eof z = refl
has_sought-room FilAt.eof_woken z = refl
has_sought-room FilAt.done z = refl

pub has_sought-eof : (pc : FilAt) (z : ℤ) → has_sought (wake_eof (wake_room pc)) z ≡ has_sought pc z
has_sought-eof FilAt.start z = refl
has_sought-eof FilAt.test z = refl
has_sought-eof FilAt.test_seek z = refl
has_sought-eof FilAt.ask z = refl
has_sought-eof FilAt.seek z = refl
has_sought-eof FilAt.serve z = refl
has_sought-eof FilAt.enter z = refl
has_sought-eof FilAt.head z = refl
has_sought-eof FilAt.wait z = refl
has_sought-eof FilAt.asleep z = refl
has_sought-eof FilAt.gate z = refl
has_sought-eof FilAt.round z = refl
has_sought-eof FilAt.short z = refl
has_sought-eof FilAt.asleep_eof z = refl
has_sought-eof FilAt.eof_woken z = refl
has_sought-eof FilAt.done z = refl

-- The offset, `eof` and the request's parameters change.
pub moved-FilInv :
    (pc : FilAt) (b : Buffer) (p : ℤ) (eof : Bool) (off whence : ℤ)
    → FilInv pc b
    → FilInv pc (record b { pos = p; eof = eof; seek_off = off; seek_whence = whence })
moved-FilInv FilAt.start b p eof off whence h = h
moved-FilInv FilAt.test b p eof off whence h = h
moved-FilInv FilAt.test_seek b p eof off whence h = h
moved-FilInv FilAt.ask b p eof off whence h = h
moved-FilInv FilAt.seek b p eof off whence h = h
moved-FilInv FilAt.serve b p eof off whence h = h
moved-FilInv FilAt.enter b p eof off whence h = h
moved-FilInv FilAt.head b p eof off whence h = h
moved-FilInv FilAt.wait b p eof off whence h = h
moved-FilInv FilAt.asleep b p eof off whence h = h
moved-FilInv FilAt.gate b p eof off whence h = h
moved-FilInv FilAt.round b p eof off whence h = h
moved-FilInv FilAt.short b p eof off whence h = h
moved-FilInv FilAt.asleep_eof b p eof off whence h = h
moved-FilInv FilAt.eof_woken b p eof off whence h = h
moved-FilInv FilAt.done b p eof off whence h = h

-- A seek is carried out only for a request.
pub sought-requested :
    (pc : FilAt) (b : Buffer)
    → FilInv pc b
    → has_sought pc b.seek_result ≡ true
    → b.seek_requested ≡ true
sought-requested FilAt.start b h e = cc
sought-requested FilAt.test b h e = cc
sought-requested FilAt.test_seek b h e = cc
sought-requested FilAt.ask b h e = cc
sought-requested FilAt.seek b h e = h.1
sought-requested FilAt.serve b h e = h.1
sought-requested FilAt.enter b h e = cc
sought-requested FilAt.head b h e = cc
sought-requested FilAt.wait b h e = cc
sought-requested FilAt.asleep b h e = cc
sought-requested FilAt.gate b h e = cc
sought-requested FilAt.round b h e = cc
sought-requested FilAt.short b h e = cc
sought-requested FilAt.asleep_eof b h e = cc
sought-requested FilAt.eof_woken b h e = cc
sought-requested FilAt.done b h e = cc

-- The filler sought nothing while no seek is requested.
pub not-sought :
    (pc : FilAt) (b : Buffer)
    → FilInv pc b
    → b.seek_requested ≡ false
    → has_sought pc b.seek_result ≡ false
not-sought pc b h e = elim (Bool-cases (has_sought pc b.seek_result)) [
  | inl t ↦ absurd (grind (arith, sought-requested pc b h t, e))
  | inr f ↦ f
]

-- Before the filler has started, the consumer may seek, and the buffer is empty.
pub unstarted-FilInv :
    (pc : FilAt) (b : Buffer) (p : ℤ) (eof : Bool) (result : ℤ)
    → b.filler_started ≡ false
    → FilInv pc b
    → FilInv pc (record b { pos = p; eof = eof; seek_result = result })
      × (used_of b.cbuf ≡ 0)
      × (has_sought pc b.seek_result ≡ false)
      × (has_sought pc result ≡ false)
unstarted-FilInv FilAt.start b p eof result e h = (h, h.3, refl, refl)
unstarted-FilInv FilAt.test b p eof result e h = absurd (grind (arith, e, h.0))
unstarted-FilInv FilAt.test_seek b p eof result e h = absurd (grind (arith, e, h.0))
unstarted-FilInv FilAt.ask b p eof result e h = absurd (grind (arith, e, h.0))
unstarted-FilInv FilAt.seek b p eof result e h = absurd (grind (arith, e, h.0))
unstarted-FilInv FilAt.serve b p eof result e h = absurd (grind (arith, e, h.0))
unstarted-FilInv FilAt.enter b p eof result e h = absurd (grind (arith, e, h.0))
unstarted-FilInv FilAt.head b p eof result e h = absurd (grind (arith, e, h.0))
unstarted-FilInv FilAt.wait b p eof result e h = absurd (grind (arith, e, h.0))
unstarted-FilInv FilAt.asleep b p eof result e h = absurd (grind (arith, e, h.0))
unstarted-FilInv FilAt.gate b p eof result e h = absurd (grind (arith, e, h.0))
unstarted-FilInv FilAt.round b p eof result e h = absurd (grind (arith, e, h.0))
unstarted-FilInv FilAt.short b p eof result e h = absurd (grind (arith, e, h.0))
unstarted-FilInv FilAt.asleep_eof b p eof result e h = absurd (grind (arith, e, h.0))
unstarted-FilInv FilAt.eof_woken b p eof result e h = absurd (grind (arith, e, h.0))
unstarted-FilInv FilAt.done b p eof result e h = absurd (grind (arith, e, h.0))
