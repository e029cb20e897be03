-- ===== src/Http/Body/Deliver.antt =====
-- src/streamlike/http.c: one piece of the body over as many reads as it takes. cURL hands the same piece
-- over again after the callback has paused, once the next read has unpaused it.
use libstreamlike.Common.{
  add_off-add, add_off, ℕ, ◌+◌, ◌-◌, ◌≤◌, ◌<◌, ◌≡◌, ◌≢◌, ◌∙◌, refl, sym, ap, ap₂, arith, ◌⊎◌, inl,
  inr, Bool, true, false, if◌then◌else◌, if-true, if-false, min, size_mod, List, [], ◌∷◌, ◌++◌,
  Option, some, ◌>>=◌,
}
use libstreamlike.Memory.{Block, bytes, bytes-ext, bytes-append}
use libstreamlike.Http.{Http, State, ready, working, paused, abort_requested, aborted}
use libstreamlike.Http.Body.{Handles, Verdict, took, pause, Written, write_in, write_cb_, copy_body}
use libstreamlike.Http.Body.Copy.{IsOpen, moved, IsMoved, copy_body-IsMoved}

-- What a caller passes to a read: where to put the bytes, and how many
pub record Request : Type 0 where
  pub buffer : Block
  pub base : ℕ
  pub len : ℕ

-- The start of `sl_http_read_cb(http, buffer + base, len)`
abbrev pub open_read : Request → Http → Http
open_read q http = record http {
  outbuf = q.buffer;
  outbuf_base = q.base;
  outbuf_off = 0;
  outbuf_size = q.len;
}

-- What the reads leave: the stream, what cURL keeps, the bytes put into the buffers of the reads one
-- after the other, and what the last call returned
pub record Delivery (W : Type 0) : Type 0 where
  pub http : Http
  pub world : W
  pub got : List ℕ
  pub verdict : Verdict

abbrev pub is_pause : Verdict → Bool
is_pause pause = true
is_pause _ = false

-- The bytes that a call has put into the buffer
abbrev pub stored : {W : Type 0} → Http → Written W → List ℕ
stored h r =
    bytes (λ i. r.http.outbuf.at (h.outbuf_base + (h.outbuf_off + i)))
      (r.http.outbuf_off - h.outbuf_off)

-- The piece of `size` bytes at `curlbuf` handed over, and again on each of the reads that follow
unfoldable pub deliver :
    {W : Type 0} → Handles W → Block → ℕ → List Request → Http → W → Option (Delivery W)
deliver curl curlbuf size [] h w = write_cb_ curl curlbuf size h w >>= λ r.
    some (record { http = r.http; world = r.world; got = stored h r; verdict = r.verdict })
deliver curl curlbuf size (q ∷ qs) h w = write_cb_ curl curlbuf size h w >>= λ r.
    if is_pause r.verdict
    then (deliver curl curlbuf size qs (open_read q r.http) r.world >>= λ d.
        some (record d { got = stored h r ++ d.got }))
    else some (record { http = r.http; world = r.world; got = stored h r; verdict = r.verdict })

abbrev pub total_len : List Request → ℕ
total_len [] = 0
total_len (q ∷ qs) = q.len + total_len qs

-- Every read asks for room that its buffer has.
abbrev pub Fits : List Request → Type 0
Fits [] = Unit
Fits (q ∷ qs) = (q.base + q.len ≤ q.buffer.len) × (q.len < size_mod) × Fits qs

module _ (curlbuf : Block) (size : ℕ) where
  -- How many bytes the reads take: what is left of the piece, or what they ask for
  abbrev pub delivered : List Request → Http → ℕ
  delivered qs h = min (size - h.curlbuf_off) (h.outbuf_size - h.outbuf_off + total_len qs)

  pub record IsDelivered {W : Type 0} (qs : List Request) (h : Http) (w : W) (d : Delivery W)
      : Type 0 where
    pub got_eq : d.got ≡ bytes (λ i. curlbuf.at (h.curlbuf_off + i)) (delivered qs h)
    pub off_eq : d.http.http_off ≡ add_off h.http_off (delivered qs h)
    pub len_eq : d.http.http_len ≡ h.http_len
    pub world_eq : d.world ≡ w
    pub ends :
        ((d.verdict ≡ took size)
          × (d.http.curlbuf_off ≡ 0)
          × (h.curlbuf_off + delivered qs h ≡ size)
          × (delivered qs h < h.outbuf_size - h.outbuf_off + total_len qs))
        ⊎ ((d.verdict ≡ pause)
            × (d.http.curlbuf_off ≡ h.curlbuf_off + delivered qs h)
            × (delivered qs h ≡ h.outbuf_size - h.outbuf_off + total_len qs))

  took_ne : (n : ℕ) → took n ≢ pause
  took_ne n = λ p. absurd (grind (arith, p))

  paused_ne : paused ≢ abort_requested
  paused_ne = λ p. absurd (grind (arith, p))

  write_in-copy :
      {W : Type 0} (curl : Handles W) (st : State) (h : Http) (w : W)
      → st ≢ abort_requested
      → write_in curl st curlbuf size h w ≡ copy_body curlbuf size h w
  write_in-copy curl ready h w ne = refl
  write_in-copy curl working h w ne = refl
  write_in-copy curl paused h w ne = refl
  write_in-copy curl abort_requested h w ne = absurd (ne refl)
  write_in-copy curl aborted h w ne = refl

  -- One call where no abort is asked for
  pub write_cb_-IsMoved :
      {W : Type 0} (curl : Handles W) (h : Http) (w : W)
      → IsOpen curlbuf size h
      → h.state ≢ abort_requested
      → (r : Written W) × (write_cb_ curl curlbuf size h w ≡ some r) × IsMoved curlbuf size h w r
  unfolding write_cb_
  write_cb_-IsMoved curl h w o ne =
      let (r, q, t) = copy_body-IsMoved curlbuf size h w o in
      (r, write_in-copy curl h.state h w ne ∙ q, t)

  out_off-eq :
      {W : Type 0} (h : Http) (w : W) (r : Written W)
      → IsMoved curlbuf size h w r
      → r.http.outbuf_off ≡ h.outbuf_off + moved curlbuf size h
  out_off-eq h w r t = ap (λ x. x.outbuf_off) t.rest

  stored-eq :
      {W : Type 0} (h : Http) (w : W) (r : Written W)
      → IsMoved curlbuf size h w r
      → stored h r ≡ bytes (λ i. curlbuf.at (h.curlbuf_off + i)) (moved curlbuf size h)
  stored-eq h w r t =
      ap (bytes (λ i. r.http.outbuf.at (h.outbuf_base + (h.outbuf_off + i))))
        (omega (arith, out_off-eq h w r t))
      ∙ bytes-ext (λ i. r.http.outbuf.at (h.outbuf_base + (h.outbuf_off + i)))
          (λ i. curlbuf.at (h.curlbuf_off + i)) (moved curlbuf size h) t.copied

  -- The call that ends the piece, or that the last read makes
  last-IsDelivered :
      {W : Type 0} (qs : List Request) (h : Http) (w : W) (r : Written W)
      → IsMoved curlbuf size h w r
      → delivered qs h ≡ moved curlbuf size h
      → (r.verdict ≡ pause → total_len qs ≡ 0)
      → IsDelivered qs h w
          (record { http = r.http; world = r.world; got = stored h r; verdict = r.verdict })
  last-IsDelivered qs h w r t e last = record {
    got_eq = rw e (stored-eq h w r t);
    off_eq = rw e (ap (λ x. x.http_off) t.rest);
    len_eq = ap (λ x. x.http_len) t.rest;
    world_eq = t.world_eq;
    ends = elim t.verdict [
      | inl (v, c, s, a, b) ↦ inl (v, c, omega arith, omega arith)
      | inr (v, c, s, a) ↦ inr (v, omega arith, omega (arith, last v))
    ];
  }

  -- A call that pauses, and the reads behind it
  more-IsDelivered :
      {W : Type 0} (q : Request) (qs : List Request) (h : Http) (w : W) (r : Written W)
      (d : Delivery W)
      → IsMoved curlbuf size h w r
      → r.http.curlbuf_off ≡ h.curlbuf_off + moved curlbuf size h
      → h.outbuf_off + moved curlbuf size h ≡ h.outbuf_size
      → h.curlbuf_off ≤ size
      → IsDelivered qs (open_read q r.http) r.world d
      → IsDelivered (q ∷ qs) h w (record d { got = stored h r ++ d.got })
  more-IsDelivered q qs h w r d t c a le k =
      let e : delivered (q ∷ qs) h ≡ moved curlbuf size h + delivered qs (open_read q r.http) =
        omega arith in
      record {
        got_eq =
            ap₂ ◌++◌ (stored-eq h w r t) k.got_eq
            ∙ bytes-append (λ i. curlbuf.at (h.curlbuf_off + i))
                (λ i. curlbuf.at (r.http.curlbuf_off + i)) (λ i. curlbuf.at (h.curlbuf_off + i))
                (moved curlbuf size h) (delivered qs (open_read q r.http)) (delivered (q ∷ qs) h)
                (sym e) (λ i l. refl) (λ i l. ap curlbuf.at (omega arith));
        off_eq =
            k.off_eq
            ∙ ap (λ x. add_off x.http_off (delivered qs (open_read q r.http))) t.rest
            ∙ add_off-add h.http_off (moved curlbuf size h) (delivered qs (open_read q r.http))
            ∙ ap (add_off h.http_off) (sym e);
        len_eq = k.len_eq ∙ ap (λ x. x.http_len) t.rest;
        world_eq = k.world_eq ∙ t.world_eq;
        ends = elim k.ends [
          | inl (v, z, b, l) ↦ inl (v, z, omega arith, omega arith)
          | inr (v, z, b) ↦ inr (v, omega arith, omega arith)
        ];
      }

  open_read-IsOpen :
      {W : Type 0} (q : Request) (h : Http) (w : W) (r : Written W)
      → IsOpen curlbuf size h
      → IsMoved curlbuf size h w r
      → r.http.curlbuf_off ≡ h.curlbuf_off + moved curlbuf size h
      → (q.base + q.len ≤ q.buffer.len) × (q.len < size_mod)
      → IsOpen curlbuf size (open_read q r.http)
  open_read-IsOpen q h w r o t c f = record {
    out_le = omega arith;
    out_in = f.0;
    out_small = f.1;
    cur_le = omega (arith, o.cur_le);
    cur_in = o.cur_in;
    cur_small = o.cur_small;
  }

  -- A piece of the body is handed over to an open read that asks for no abort, and again to each of the
  -- reads `qs` behind it as long as the callback pauses; all buffers have the room that is asked for.
  -- Then no call leaves its blocks, and the bytes in the buffers, one after the other, are those of the
  -- piece from `curlbuf_off` on, as many as are left or as the reads ask for. `http_off` grows by
  -- that number. If the reads ask for more than is left, the last call takes the piece and resets
  -- `curlbuf_off`; if not, it pauses with `curlbuf_off` behind the last byte delivered.
  pub deliver-IsDelivered :
      {W : Type 0} (curl : Handles W) (qs : List Request) (h : Http) (w : W)
      → IsOpen curlbuf size h
      → h.state ≢ abort_requested
      → Fits qs
      → (d : Delivery W) × (deliver curl curlbuf size qs h w ≡ some d) × IsDelivered qs h w d
  unfolding deliver
  deliver-IsDelivered curl [] h w o ne f =
      let (r, e, t) = write_cb_-IsMoved curl h w o ne in
      rw e (_, refl, last-IsDelivered [] h w r t (omega arith) (λ _. refl))
  deliver-IsDelivered curl (q ∷ qs) h w o ne f =
      let (r, e, t) = write_cb_-IsMoved curl h w o ne in
      elim t.verdict [
        | inl (v, c, s, a, b) ↦ rw e (
          _,
          if-false _ _ _ (ap is_pause v),
          last-IsDelivered (q ∷ qs) h w r t (omega arith) (λ p. absurd (took_ne size (sym v ∙ p))),
        )
        | inr (v, c, s, a) ↦
            let (d, e', k) =
              deliver-IsDelivered curl qs (open_read q r.http) r.world
                (open_read-IsOpen q h w r o t c (f.0, f.1)) (λ p. paused_ne (sym s ∙ p)) f.2 in
            rw (e, e')
              (_, if-true _ _ _ (ap is_pause v), more-IsDelivered q qs h w r d t c a o.cur_le k)
      ]
