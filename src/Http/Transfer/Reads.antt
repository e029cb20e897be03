-- ===== src/Http/Transfer/Reads.antt =====
-- That a read returns, and what it returns, for a cURL that keeps to its documentation.
use libstreamlike.Common.{
  subst, sym, ◌⊎◌, inr, inl, false, Bool, add_off, ℕ, ◌+◌, ◌≤◌, ◌<◌, ◌≡◌, ◌≢◌, ◌∙◌, refl, ap, arith,
  some, size_mod,
}
use libstreamlike.Http.{Http, State, ready, working, paused, abort_requested, aborted, tell_cb}
use libstreamlike.Http.Body.Deliver.{Request, open_read}
use libstreamlike.Http.Transfer.{Performed, Curl, resume, read_cb, Calls}
use libstreamlike.Http.Transfer.Loop.{IsKept, loop-Leaves}
use libstreamlike.Http.Transfer.Account.{
  IsHalted, Calls-IsHalted, HasRoom, Counts, same-Counts, then-Counts, Calls-Counts,
}

-- What a read relies on. `is_paused` says whether the transfer is paused, and `Ready` ties what cURL keeps
-- to how much of the piece that it will hand over again has been taken. cURL touches the stream only
-- through the callbacks, which do not fault under it; it hands nothing over while the transfer is
-- paused, and nothing is said of how it goes on before it is unpaused. A transfer that is paused has
-- not ended; and one that is not paused ends: with each round that leaves it running and the read
-- unfinished, fewer rounds are left.
pub record IsCurl {W : Type 0} (curl : Curl W) (is_paused : W → Bool) (Ready : ℕ → W → Type 0)
    (left : W → ℕ) : Type 0 where
  pub performs :
      (h : Http) (w : W)
      → HasRoom h
      → is_paused w ≡ false
      → Ready h.curlbuf_off w
      → (p : Performed W) × (curl.perform h w ≡ some p)
        × Calls W h false p.http (is_paused p.world)
        × Ready p.http.curlbuf_off p.world
        × (p.http.outbuf_off < p.http.outbuf_size → p.count ≢ 0 → left p.world < left w)
        × (p.count ≡ 0 → is_paused p.world ≡ false)
  pub unpauses :
      (h : Http) (w : W)
      → HasRoom h
      → Ready h.curlbuf_off w
      → (r : Http × W) × (curl.unpause h w ≡ some r)
        × Calls W h false r.0 (is_paused r.1)
        × Ready r.0.curlbuf_off r.1
        × (left r.1 ≤ left w)
  pub waits :
      (c : ℕ) (w : W)
      → Ready c w
      → Ready c (curl.wait w).0
        × (is_paused (curl.wait w).0 ≡ is_paused w)
        × (left (curl.wait w).0 ≤ left w)

-- A read that has not all that it asks for is not halted.
pub goes_on-IsHalted :
    (h : Http) (b : Bool) → IsHalted h b → h.outbuf_off < h.outbuf_size → b ≡ false
goes_on-IsHalted h b t l = elim t [ inl e ↦ e | inr e ↦ absurd (omega (arith, e.1, l)) ]

pub ready-IsHalted : (h : Http) (b : Bool) → IsHalted h b → h.state ≡ ready → b ≡ false
ready-IsHalted h b t e = elim t [ inl f ↦ f | inr f ↦ absurd (grind (arith, sym e ∙ f.0)) ]

-- Between two reads: the stream knows where its transfer is paused.
abbrev pub Knows : Http → Bool → Type 0
Knows h b = (b ≡ false) ⊎ (h.state ≡ paused)

pub halted-Knows : (h : Http) (b : Bool) → IsHalted h b → Knows h b
halted-Knows h b t = elim t [ inl e ↦ inl e | inr e ↦ inr e.0 ]

pub other-Knows :
    (h : Http) (b : Bool) (st : State) → h.state ≡ st → st ≢ paused → Knows h b → b ≡ false
other-Knows h b st e n t = elim t [ inl f ↦ f | inr f ↦ absurd (n (sym e ∙ f)) ]

module _ {W : Type 0} (curl : Curl W) where
  module _ (is_paused : W → Bool) (Ready : ℕ → W → Type 0) (left : W → ℕ)
      (c : IsCurl curl is_paused Ready left) where
    -- What the read that starts at `h0` keeps
    abbrev Going : Http → Http → W → Type 0
    Going h0 h w = Counts h0 h × Ready h.curlbuf_off w × IsHalted h (is_paused w)

    set_state-Counts :
        (h0 h : Http) (st : State) → Counts h0 h → Counts h0 (record h { state = st })
    set_state-Counts h0 h st k =
        then-Counts h0 h _ k (same-Counts h _ k.1.room refl refl refl refl refl)

    Going-IsKept : (h0 : Http) → IsKept curl (Going h0) (λ _ _. Unit) left
    Going-IsKept h0 = record {
      waits = λ h w g.
          let (d, s, le) = c.waits h.curlbuf_off w g.1 in
          ((g.0, d, subst (IsHalted h) (sym s) g.2), le);
      fails = λ h w g e. tt;
      performs = λ h w g l.
          let (p, q, k, d, fewer, on) =
            c.performs h w g.0.1.room (goes_on-IsHalted h (is_paused w) g.2 l) g.1 in
          let a = then-Counts h0 h p.http g.0 (Calls-Counts k g.0.1.room) in
          (
            p,
            q,
            (a, d, Calls-IsHalted k g.0.1.room (inl refl)),
            fewer,
            λ z. (set_state-Counts h0 p.http ready a, d, inl (on z)),
            λ _. tt,
          );
      works = λ h w g e.
          (set_state-Counts h0 h working g.0, g.1, inl (ready-IsHalted h (is_paused w) g.2 e));
    }

    still-Going :
        (st : State) (h : Http) (w : W)
        → h.state ≡ st
        → st ≢ paused
        → Knows h (is_paused w)
        → HasRoom h
        → Ready h.curlbuf_off w
        → Going h h w
    still-Going st h w e n t r d =
        (same-Counts h h r refl refl refl refl refl, d, inl (other-Knows h (is_paused w) st e n t))

    resume-Going :
        (st : State) (h : Http) (w : W)
        → h.state ≡ st
        → Knows h (is_paused w)
        → HasRoom h
        → Ready h.curlbuf_off w
        → (r : Http × W) × (resume curl st h w ≡ some r) × Going h r.0 r.1 × (left r.1 ≤ left w)
    resume-Going paused h w e t r d =
        let (s, q, k, d', le) = c.unpauses h w r d in
        (s, q, (Calls-Counts k r, d', Calls-IsHalted k r (inl refl)), le)
    resume-Going ready h w e t r d =
        ((h, w), refl, still-Going ready h w e (λ x. absurd (grind (arith, x))) t r d, omega arith)
    resume-Going working h w e t r d = (
      (h, w),
      refl,
      still-Going working h w e (λ x. absurd (grind (arith, x))) t r d,
      omega arith,
    )
    resume-Going abort_requested h w e t r d = (
      (h, w),
      refl,
      still-Going abort_requested h w e (λ x. absurd (grind (arith, x))) t r d,
      omega arith,
    )
    resume-Going aborted h w e t r d = (
      (h, w),
      refl,
      still-Going aborted h w e (λ x. absurd (grind (arith, x))) t r d,
      omega arith,
    )

    -- On a stream that knows whether its transfer is paused, with a cURL of which nothing is expected while
    -- a transfer is paused and that keeps to its documentation else, a buffer that has the room asked
    -- for, and fuel for two rounds more than are left, `sl_http_read_cb` returns. It returns no more than
    -- was asked for, the offset that `sl_http_tell_cb` tells has grown by the number returned, and the
    -- stream knows again whether its transfer is paused.
    pub read_cb-IsRead :
        (fuel : ℕ) (q : Request) (h : Http) (w : W)
        → q.base + q.len ≤ q.buffer.len
        → q.len < size_mod
        → Knows h (is_paused w)
        → Ready h.curlbuf_off w
        → left w + 1 < fuel
        → (r : Http × W × ℕ) × (read_cb curl fuel q h w ≡ some r)
          × (r.2 ≤ q.len)
          × (tell_cb r.0 ≡ add_off (tell_cb h) r.2)
          × Knows r.0 (is_paused r.1)
    unfolding read_cb tell_cb
    read_cb-IsRead fuel q h w room small knows d l =
        let h0 = open_read q h in
        let r0 : HasRoom h0 = record { out_le = omega arith; out_in = room; out_small = small } in
        let (s, e, g, le) = resume-Going h.state h0 w refl knows r0 d in
        let (r, e', (t, _, y), z, _) =
          loop-Leaves curl (Going h0) (λ _ _. Unit) left (Going-IsKept h0) fuel s.0 s.1 g
            (omega (arith, le, l)) in
        rw (e, e')
          (
            r,
            refl,
            omega (arith, z, t.1.room.out_le, t.1.size_eq),
            t.1.told ∙ ap (add_off h.http_off) (omega (arith, z, t.1.put)),
            halted-Knows r.0 (is_paused r.1) y,
          )
