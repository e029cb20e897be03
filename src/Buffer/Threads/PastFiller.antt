-- ===== src/Buffer/Threads/PastFiller.antt =====
-- What the consumer knows, past a step of the filler.
use libstreamlike.Common.{ℕ, ◌≡◌, subst, refl, arith, true, false, ℤ, eq_ℤ, if◌then◌else◌}
use libstreamlike.Memory.{Block}
use libstreamlike.Buffer.{Buffer}
use libstreamlike.Buffer.Machine.{Consumer, ConAt, wake_data, wake_seek, is_locked}
use libstreamlike.Buffer.Threads.Inv.{front, ConInv}

module _ (content : ℕ → ℕ) where
  -- The filler has put bytes into the buffer, which signals that there is data.
  pub put-ConInv :
      (next : ℕ) (pc : ConAt) (b : Buffer) (con : Consumer) (pc' : ConAt) (mem : Block) (woff : ℕ)
      → ConInv content next pc b con
      → ConInv content next
          (wake_data pc)
          (record b { cbuf = record b.cbuf { mem = mem; woff = woff } })
          (record con { pc = pc' })
  put-ConInv next ConAt.idle b con pc' mem woff h = h
  put-ConInv next ConAt.returned b con pc' mem woff h = h
  put-ConInv next ConAt.r_head b con pc' mem woff h = h
  put-ConInv next ConAt.r_ask b con pc' mem woff h = h
  put-ConInv next ConAt.r_wait b con pc' mem woff h = h
  put-ConInv next ConAt.r_asleep b con pc' mem woff h = h.0
  put-ConInv next ConAt.r_round b con pc' mem woff h = h
  put-ConInv next ConAt.r_finish b con pc' mem woff h = h
  put-ConInv next ConAt.s_lock b con pc' mem woff h = h
  put-ConInv next ConAt.s_close b con pc' mem woff h = h
  put-ConInv next ConAt.s_asleep b con pc' mem woff h = h
  put-ConInv next ConAt.s_woken b con pc' mem woff h = h

  -- Writing is closed.
  pub closed-ConInv :
      (next : ℕ) (pc : ConAt) (b : Buffer) (con : Consumer) (pc' : ConAt)
      → ConInv content next pc b con
      → ConInv content next
          (wake_data pc)
          (record b { cbuf = record b.cbuf { wdone = true } })
          (record con { pc = pc' })
  closed-ConInv next ConAt.idle b con pc' h = h
  closed-ConInv next ConAt.returned b con pc' (p, q, r, t) = (p, q, r, λ f. refl)
  closed-ConInv next ConAt.r_head b con pc' h = h
  closed-ConInv next ConAt.r_ask b con pc' h = h
  closed-ConInv next ConAt.r_wait b con pc' h = h
  closed-ConInv next ConAt.r_asleep b con pc' h = h.0
  closed-ConInv next ConAt.r_round b con pc' h = h
  closed-ConInv next ConAt.r_finish b con pc' (p, q) = (p, λ f. refl)
  closed-ConInv next ConAt.s_lock b con pc' h = h
  closed-ConInv next ConAt.s_close b con pc' h = h
  closed-ConInv next ConAt.s_asleep b con pc' h = h
  closed-ConInv next ConAt.s_woken b con pc' h = h

  -- The consumer wakes unasked.
  pub woken-ConInv :
      (next : ℕ) (pc : ConAt) (b : Buffer) (con : Consumer) (pc' : ConAt)
      → ConInv content next pc b con
      → ConInv content next (wake_seek (wake_data pc)) b (record con { pc = pc' })
  woken-ConInv next ConAt.idle b con pc' h = h
  woken-ConInv next ConAt.returned b con pc' h = h
  woken-ConInv next ConAt.r_head b con pc' h = h
  woken-ConInv next ConAt.r_ask b con pc' h = h
  woken-ConInv next ConAt.r_wait b con pc' h = h
  woken-ConInv next ConAt.r_asleep b con pc' h = h.0
  woken-ConInv next ConAt.r_round b con pc' h = h
  woken-ConInv next ConAt.r_finish b con pc' h = h
  woken-ConInv next ConAt.s_lock b con pc' h = h
  woken-ConInv next ConAt.s_close b con pc' h = h
  woken-ConInv next ConAt.s_asleep b con pc' (p, q, r) = (rw p q, λ f. r)
  woken-ConInv next ConAt.s_woken b con pc' h = h

  -- The filler starts, or seeks for a request.
  pub sought-ConInv :
      (next : ℕ) (pc : ConAt) (b : Buffer) (con : Consumer) (result : ℤ)
      → b.seek_requested ≡ true
      → ConInv content next pc b con
      → ConInv content next pc (record b { seek_result = result }) con
  sought-ConInv next ConAt.idle b con result e h = h
  sought-ConInv next ConAt.returned b con result e h = h
  sought-ConInv next ConAt.r_head b con result e h = h
  sought-ConInv next ConAt.r_ask b con result e h = h
  sought-ConInv next ConAt.r_wait b con result e h = h
  sought-ConInv next ConAt.r_asleep b con result e h = h
  sought-ConInv next ConAt.r_round b con result e h = h
  sought-ConInv next ConAt.r_finish b con result e h = h
  sought-ConInv next ConAt.s_lock b con result e h = h
  sought-ConInv next ConAt.s_close b con result e h = h
  sought-ConInv next ConAt.s_asleep b con result e h = h
  sought-ConInv next ConAt.s_woken b con result e (p, h) = (
    rw e (
        subst
          (λ x.
            (if x then b.pos else if eq_ℤ b.seek_result 0 then b.seek_off else b.pos) ≡ ℤ.pos next)
          e p),
    h,
  )

  pub started-ConInv :
      (next : ℕ) (pc : ConAt) (b : Buffer) (con : Consumer)
      → ConInv content next pc b con
      → ConInv content next pc (record b { filler_started = true }) con
  started-ConInv next ConAt.idle b con h = h
  started-ConInv next ConAt.returned b con h = h
  started-ConInv next ConAt.r_head b con h = h
  started-ConInv next ConAt.r_ask b con h = h
  started-ConInv next ConAt.r_wait b con h = h
  started-ConInv next ConAt.r_asleep b con h = h
  started-ConInv next ConAt.r_round b con h = h
  started-ConInv next ConAt.r_finish b con h = h
  started-ConInv next ConAt.s_lock b con h = h
  started-ConInv next ConAt.s_close b con h = h
  started-ConInv next ConAt.s_asleep b con h = h
  started-ConInv next ConAt.s_woken b con h = h

  -- A request is served, where the consumer does not hold the lock; `b'` is the stream after it.
  pub served-ConInv :
      (next next' : ℕ) (pc : ConAt) (b b' : Buffer) (con : Consumer) (pc' : ConAt)
      → b.seek_requested ≡ true
      → is_locked pc ≡ false
      → b'.seek_requested ≡ false
      → front b' ≡ ℤ.pos next'
      → ConInv content next pc b con
      → ConInv content next' (wake_seek pc) b' (record con { pc = pc' })
  served-ConInv next next' ConAt.idle b b' con pc' e l g f h = absurd (grind (arith, e, h.0))
  served-ConInv next next' ConAt.returned b b' con pc' e l g f h = absurd (grind (arith, e, h.0))
  served-ConInv next next' ConAt.r_head b b' con pc' e l g f h = absurd (grind (arith, e, h.0))
  served-ConInv next next' ConAt.r_ask b b' con pc' e l g f h = absurd (grind (arith, e, h.0))
  served-ConInv next next' ConAt.r_wait b b' con pc' e l g f h = absurd (grind (arith, e, h.0))
  served-ConInv next next' ConAt.r_asleep b b' con pc' e l g f h = absurd (grind (arith, e, h.0.0))
  served-ConInv next next' ConAt.r_round b b' con pc' e l g f h = absurd (grind (arith, e, h.0))
  served-ConInv next next' ConAt.r_finish b b' con pc' e l g f h = absurd (grind (arith, e, h.0.0))
  served-ConInv next next' ConAt.s_lock b b' con pc' e l g f h = absurd (grind (arith, e, h.0))
  served-ConInv next next' ConAt.s_close b b' con pc' e l g f h = absurd (grind (arith, l))
  served-ConInv next next' ConAt.s_asleep b b' con pc' e l g f h =
      (f, λ x. absurd (grind (arith, g, x)))
  served-ConInv next next' ConAt.s_woken b b' con pc' e l g f h =
      (f, λ x. absurd (grind (arith, g, x)))

  -- Where a request is made and not served, the offset is that of the next byte.
  pub asked-pos :
      (next : ℕ) (pc : ConAt) (b : Buffer) (con : Consumer)
      → b.seek_requested ≡ true
      → ConInv content next pc b con
      → b.pos ≡ ℤ.pos next
  asked-pos next ConAt.idle b con e h = absurd (grind (arith, e, h.0))
  asked-pos next ConAt.returned b con e h = absurd (grind (arith, e, h.0))
  asked-pos next ConAt.r_head b con e h = absurd (grind (arith, e, h.0))
  asked-pos next ConAt.r_ask b con e h = absurd (grind (arith, e, h.0))
  asked-pos next ConAt.r_wait b con e h = absurd (grind (arith, e, h.0))
  asked-pos next ConAt.r_asleep b con e h = absurd (grind (arith, e, h.0.0))
  asked-pos next ConAt.r_round b con e h = absurd (grind (arith, e, h.0))
  asked-pos next ConAt.r_finish b con e h = absurd (grind (arith, e, h.0.0))
  asked-pos next ConAt.s_lock b con e h = absurd (grind (arith, e, h.0))
  asked-pos next ConAt.s_close b con e h = h.1
  asked-pos next ConAt.s_asleep b con e h = h.1
  asked-pos next ConAt.s_woken b con e h =
      subst
        (λ x.
          (if x then b.pos else if eq_ℤ b.seek_result 0 then b.seek_off else b.pos) ≡ ℤ.pos next)
        e h.0
