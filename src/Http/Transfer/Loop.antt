-- ===== src/Http/Transfer/Loop.antt =====
-- The loop of `sl_http_read_cb`, for what it keeps of the stream and of cURL.
use libstreamlike.Common.{
  ℕ, zero, suc, ◌+◌, ◌≤◌, ◌<◌, ◌≡◌, ◌≢◌, refl, arith, ◌⊎◌, inl, inr, Bool, true, false, not, ◌&&◌,
  Bool-cases, if-both, if-false, ltb, ltb→lt, ◌==◌, Option, some,
}
use libstreamlike.Http.{Http, State, ready, working, paused, abort_requested, aborted}
use libstreamlike.Http.Transfer.{Performed, Curl, start_working, finish, read_loop}

-- What the loop relies on. `Good` holds of the stream and of what cURL keeps, and stays true; `Short` is
-- why a round may end the loop before the read has all that it asks for; and with each round that
-- leaves the transfer running and the read unfinished, fewer rounds are left.
pub record IsKept {W : Type 0} (curl : Curl W) (Good : Http → W → Type 0) (Short : ℕ → W → Type 0)
    (left : W → ℕ) : Type 0 where
  pub waits :
      (h : Http) (w : W) → Good h w → Good h (curl.wait w).0 × (left (curl.wait w).0 ≤ left w)
  pub fails :
      (h : Http) (w : W) → Good h w → (curl.wait w).1 ≡ false → Short h.outbuf_off (curl.wait w).0
  pub performs :
      (h : Http) (w : W)
      → Good h w
      → h.outbuf_off < h.outbuf_size
      → (p : Performed W) × (curl.perform h w ≡ some p)
        × Good p.http p.world
        × (p.http.outbuf_off < p.http.outbuf_size → p.count ≢ 0 → left p.world < left w)
        × (p.count ≡ 0 → Good (record p.http { state = ready }) p.world)
        × ((p.ok && not (p.count == 0)) ≡ false → Short p.http.outbuf_off p.world)
  pub works :
      (h : Http) (w : W) → Good h w → h.state ≡ ready → Good (record h { state = working }) w

start_working-outbuf_off :
    (st : State) (h : Http)
    → ((start_working st h).outbuf_off ≡ h.outbuf_off)
      × ((start_working st h).outbuf_size ≡ h.outbuf_size)
start_working-outbuf_off ready h = (refl, refl)
start_working-outbuf_off working h = (refl, refl)
start_working-outbuf_off paused h = (refl, refl)
start_working-outbuf_off abort_requested h = (refl, refl)
start_working-outbuf_off aborted h = (refl, refl)

finish-outbuf_off : (n : ℕ) (h : Http) → h.outbuf_off ≡ (finish n h).outbuf_off
finish-outbuf_off n h =
    if-both (λ x. h.outbuf_off ≡ x.outbuf_off) (n == 0) {x = record h { state = ready }} {y = h}
      (λ _. refl) (λ _. refl)

-- Where the loop goes on, the transfer is running.
goes_on : (b : Bool) (n : ℕ) → (b && not (n == 0)) ≡ true → n ≢ 0
goes_on false n e = absurd (grind (arith, e))
goes_on true n e = ground arith

not_lt : (m n : ℕ) → ltb m n ≡ false → n ≤ m
not_lt m n e = ground arith

module _ {W : Type 0} (curl : Curl W) where
  full-loop :
      (fuel : ℕ) (h : Http) (w : W)
      → 0 < fuel
      → ltb h.outbuf_off h.outbuf_size ≡ false
      → read_loop curl fuel h w ≡ some (h, w, h.outbuf_off)
  unfolding read_loop
  full-loop zero h w l e = absurd (omega arith)
  full-loop (suc fuel) h w l e = if-false _ _ _ e

  module _ (Good : Http → W → Type 0) (Short : ℕ → W → Type 0) (left : W → ℕ)
      (c : IsKept curl Good Short left) where
    -- The loop returns where it stands, and what it keeps holds; less than what the read asks for is there
    -- for a reason.
    abbrev pub Leaves : Option (Http × W × ℕ) → Type 0
    Leaves o =
        (r : Http × W × ℕ) × (o ≡ some r)
        × Good r.0 r.1
        × (r.2 ≡ r.0.outbuf_off)
        × ((r.0.outbuf_size ≤ r.2) ⊎ Short r.2 r.1)

    start_working-Good :
        (st : State) (h : Http) (w : W) → Good h w → h.state ≡ st → Good (start_working st h) w
    start_working-Good ready h w g e = c.works h w g e
    start_working-Good working h w g e = g
    start_working-Good paused h w g e = g
    start_working-Good abort_requested h w g e = g
    start_working-Good aborted h w g e = g

    finish-Leaves :
        (p : Performed W)
        → Good p.http p.world
        → (p.count ≡ 0 → Good (record p.http { state = ready }) p.world)
        → Short p.http.outbuf_off p.world
        → Leaves (some (finish p.count p.http, p.world, p.http.outbuf_off))
    finish-Leaves p g f s = (
      _,
      refl,
      if-both (λ x. Good x p.world) (p.count == 0) (λ e. f (ground (arith, e))) (λ _. g),
      finish-outbuf_off p.count p.http,
      inr s,
    )

    next-Leaves :
        (fuel : ℕ) (h : Http) (w : W)
        → Good h w
        → 0 < fuel
        → (h.outbuf_off < h.outbuf_size → Leaves (read_loop curl fuel h w))
        → Leaves (read_loop curl fuel h w)
    next-Leaves fuel h w g l ih = elim (Bool-cases (ltb h.outbuf_off h.outbuf_size)) [
      | inr e ↦ (_, full-loop fuel h w l e, g, refl, inl (not_lt _ _ e))
      | inl e ↦ ih (ltb→lt _ _ e)
    ]

    -- With fuel for two rounds more than are left, the loop returns.
    pub loop-Leaves :
        (fuel : ℕ) (h : Http) (w : W)
        → Good h w
        → left w + 1 < fuel
        → Leaves (read_loop curl fuel h w)
    unfolding read_loop
    loop-Leaves zero h w g l = absurd (omega arith)
    loop-Leaves (suc fuel) h w g l = elim (Bool-cases (ltb h.outbuf_off h.outbuf_size)) [
      | inr e ↦ rw e (_, refl, g, refl, inl (not_lt _ _ e))
      | inl e ↦
          let (g', le) = c.waits h w g in
          elim (Bool-cases (curl.wait w).1) [
            | inr f ↦ rw (e, f) (_, refl, g', refl, inr (c.fails h w g f))
            | inl f ↦
                let (p, q, k, fewer, over, ends) = c.performs h (curl.wait w).0 g' (ltb→lt _ _ e) in
                elim (Bool-cases (p.ok && not (p.count == 0))) [
                  | inr d ↦ rw (e, f, q, d) (finish-Leaves p k over (ends d))
                  | inl d ↦
                      let h' = start_working p.http.state p.http in
                      let s = start_working-outbuf_off p.http.state p.http in
                      let k' = start_working-Good p.http.state p.http p.world k refl in
                      rw (e, f, q, d)
                        (next-Leaves fuel h' p.world k' (omega (arith, l)) (λ o.
                          loop-Leaves fuel h' p.world k' (
                            omega
                              (arith, le, fewer (omega (arith, s, o)) (goes_on p.ok p.count d)))))
                ]
          ]
    ]
