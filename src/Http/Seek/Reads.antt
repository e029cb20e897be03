-- ===== src/Http/Seek/Reads.antt =====
-- A seek of an HTTP stream, and the reads behind it.
mod Tests
use libstreamlike.Common.{
  suc, zero, Bool, ℕ, zero, suc, ◌≤◌, ◌<◌, ◌≡◌, refl, sym, subst, arith, ◌⊎◌, Bool, true, false,
  not, ◌&&◌, ◌==◌, if-true, if-false, ℤ, ltb_ℤ, List, some, Ensures,
}
use libstreamlike.Memory.{Block}
use libstreamlike.Http.{Http, State, ready, working, paused, abort_requested, aborted}
use libstreamlike.Http.Body.{Handles, stop, Written, write_cb_, write_in}
use libstreamlike.Http.Body.Deliver.{Request, open_read}
use libstreamlike.Http.Transfer.{Performed, Curl}
use libstreamlike.Http.Transfer.Order.{IsFeed, IsInOrder, read_all}
use libstreamlike.Http.Seek.{
  is_aborted, conclude, conclude_abort, cancel_in, sl_cancel_transfer_, seek_cb,
}

not_negative : (n : ℕ) → ltb_ℤ (ℤ.pos n) (ℤ.pos 0) ≡ false
not_negative n = ground arith

module _ {W : Type 0} (curl : Curl W) (handles : Handles W) (set_range : W → ℤ → W) where
  -- What cURL keeps once a handle is set to a range and put back
  abbrev restarted : W → ℕ → W
  restarted w n = handles.add_handle (handles.remove_handle (set_range w (ℤ.pos n)))

  -- `sl_http_seek_cb` behind the cancelling
  seek_cb-cancelled :
      (fuel : ℕ) (h : Http) (w : W) (n : ℕ) (whence : ℤ) (r : Http × W)
      → cancel_in curl fuel h.state h w ≡ some r
      → seek_cb curl handles set_range fuel h w (ℤ.pos n) whence
        ≡ some (record r.0 { http_off = ℤ.pos n; curlbuf_off = 0 }, restarted r.1 n, ℤ.pos 0)
  unfolding seek_cb sl_cancel_transfer_
  seek_cb-cancelled fuel h w n whence r e = rw (not_negative n, e) refl

  -- A piece is refused, whatever it holds.
  abbrev pub Refuses : Http → Type 0
  Refuses h =
      (curlbuf : Block) (size : ℕ) (w : W)
      → Ensures (λ x. (x.verdict ≡ stop) × (x.http.outbuf_off ≡ h.outbuf_off))
          (write_cb_ handles curlbuf size h w)

  requested-Refuses : (h : Http) → h.state ≡ abort_requested → Refuses h
  unfolding write_cb_
  requested-Refuses h e curlbuf size w =
      subst
        (λ st.
          Ensures (λ x. (x.verdict ≡ stop) × (x.http.outbuf_off ≡ h.outbuf_off))
            (write_in handles st curlbuf size h w))
        (sym e) (refl, refl)

  ended-conclude_abort :
      (fuel : ℕ) (h : Http) (w : W) (p : Performed W)
      → curl.perform (record h { state = abort_requested }) (curl.wait w).0 ≡ some p
      → p.count ≡ 0
      → conclude_abort curl (suc fuel) (record h { state = abort_requested }) w
        ≡ some (record p.http { curlbuf_off = 0 }, p.world)
  unfolding conclude_abort conclude
  ended-conclude_abort fuel h w p e z = rw (e, ended p.ok p.count z) refl
    where
      ended : (b : Bool) (n : ℕ) → n ≡ 0 → (b && not (n == 0)) ≡ false
      ended true n z = ground (arith, z)
      ended false n z = refl

  ended-cancel_in :
      (fuel : ℕ) (st : State) (h : Http) (w : W) (p : Performed W)
      → (st ≡ working) ⊎ (st ≡ aborted)
      → curl.perform (record h { state = abort_requested }) (curl.wait w).0 ≡ some p
      → p.count ≡ 0
      → cancel_in curl (suc fuel) st h w ≡ some (record p.http { curlbuf_off = 0 }, p.world)
  ended-cancel_in fuel working h w p s e z = ended-conclude_abort fuel h w p e z
  ended-cancel_in fuel aborted h w p s e z = ended-conclude_abort fuel h w p e z
  ended-cancel_in fuel ready h w p s e z = absurd (grind (arith, s))
  ended-cancel_in fuel paused h w p s e z = absurd (grind (arith, s))
  ended-cancel_in fuel abort_requested h w p s e z = absurd (grind (arith, s))

  -- From the state that a read leaves where cURL failed, working, or from the one that another seek leaves,
  -- aborted: where the transfer that is to be cancelled ends in its first round without a piece of a
  -- body, so that the state is still that of a request to abort, `sl_http_seek_cb` to an offset that is
  -- not negative returns 0, and the read behind it, whatever it asks for, starts in a state in which the
  -- body callback refuses the piece that comes first, whatever it holds, and puts nothing into the buffer.
  pub seek_cb-Refuses :
      (fuel : ℕ) (h : Http) (w : W) (n : ℕ) (whence : ℤ) (p : Performed W)
      → (h.state ≡ working) ⊎ (h.state ≡ aborted)
      → curl.perform (record h { state = abort_requested }) (curl.wait w).0 ≡ some p
      → p.count ≡ 0
      → p.http.state ≡ abort_requested
      → (q : Request)
      → Ensures
          (λ r. (r.2 ≡ ℤ.pos 0) × ((open_read q r.0).outbuf_off ≡ 0) × Refuses (open_read q r.0))
          (seek_cb curl handles set_range (suc fuel) h w (ℤ.pos n) whence)
  seek_cb-Refuses fuel h w n whence p s e z a q =
      rw (seek_cb-cancelled (suc fuel) h w n whence _ (ended-cancel_in fuel h.state h w p s e z))
        (refl, refl, requested-Refuses _ a)

  module _ (total : ℕ) (is_paused : W → Bool) (Ready : ℕ → W → Type 0) (at left : W → ℕ) where
    -- What is left once a paused transfer that is to be aborted is unpaused, where the callback answers a
    -- piece with `r`: `curl_easy_pause` has handed the piece over, or leaves it to the next call of
    -- `curl_multi_perform`, which ends the transfer that the callback refuses.
    abbrev pub HandsOver : Http → W → Written W → Type 0
    HandsOver h w r =
        ((w' : W) × (curl.unpause h w ≡ some (r.http, w')))
        ⊎ ((w' : W) × (curl.unpause h w ≡ some (h, w'))
            × (p : Performed W) × (curl.perform h (curl.wait w').0 ≡ some p)
            × (p.http ≡ r.http)
            × (p.count ≡ 0))

    -- What seeking relies on. A handle that is put back starts again, at the range that was set, not paused,
    -- and with at most `rounds` rounds to go; and where a transfer is paused, the piece that is held back
    -- is handed over once it is unpaused, and nothing more when the callback has refused it. Nothing is
    -- said of a transfer that is not unpaused.
    pub record IsRestarting (rounds : ℕ) : Type 0 where
      pub restarts :
          (w : W) (n : ℕ)
          → n < total
          → (at (restarted w n) ≡ n)
            × Ready 0 (restarted w n)
            × (is_paused (restarted w n) ≡ false)
            × (left (restarted w n) ≤ rounds)
      pub hands_over :
          (h : Http) (w : W)
          → h.state ≡ paused
          → Ready h.curlbuf_off w
          → (curlbuf : Block) × (size : ℕ) × (v : W) × (r : Written W) × (write_cb_ handles curlbuf
                size
                (record h { state = abort_requested })
                v
              ≡ some r)
            × HandsOver (record h { state = abort_requested }) w r

    module _ (content : ℕ → ℕ) (rounds : ℕ) (c : IsRestarting rounds) where
      module _ (Failed : Type 0)
          (f : IsFeed curl content total is_paused Ready at left Failed) where
        -- The seek returns 0, and the reads behind it hand out the resource from `n` on.
        abbrev pub IsSoughtAndRead : ℕ → List Request → ℕ → Http × W × ℤ → Type 0
        IsSoughtAndRead fuel qs n r =
            (r.2 ≡ ℤ.pos 0)
            × Ensures (IsInOrder curl content total is_paused Ready at left Failed f qs n)
                (read_all curl fuel qs r.0 r.1)
