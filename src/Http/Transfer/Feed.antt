-- ===== src/Http/Transfer/Feed.antt =====
-- The calls of the two callbacks where cURL hands over a body, piece by piece, and what they keep of
-- the read that is open.
use libstreamlike.Http.Transfer.{Calls, quiet, body, header}
use libstreamlike.Common.{
  Bool, false, some_inj, add_off, ℕ, ◌+◌, ◌-◌, ◌≤◌, ◌<◌, ◌≡◌, ◌≢◌, ◌∙◌, sym, ap, subst, arith, inl,
  inr, Bool-cases, ltb, size_mod, ℤ, some,
}
use libstreamlike.Memory.{Block}
use libstreamlike.Http.{Http, RangeAllowed, State, abort_requested}
use libstreamlike.Http.Body.{Handles, Verdict, stop, took, pause, Written, write_cb_}
use libstreamlike.Http.Body.Copy.{IsOpen, moved, IsMoved}
use libstreamlike.Http.Body.Deliver.{is_pause, Request, write_cb_-IsMoved}
use libstreamlike.Http.Header.{Scanner, header_cb_}
use libstreamlike.Http.Header.Settled.{header_cb_-IsParsed}
use libstreamlike.Http.Transfer.Account.{HasRoom}

-- Where the piece begins that cURL hands over after a call: a piece that is not taken comes again.
abbrev pub goes_on_at : ℕ → Verdict → ℕ
goes_on_at at (took n) = at + n
goes_on_at at stop = at
goes_on_at at pause = at

-- From the first stream to the second, cURL calls the two callbacks in some order. The number beside a
-- stream is where, in a resource of `total` bytes, the next piece begins, and the Boolean whether the
-- transfer is paused. A piece that comes again holds at least what has been taken of it.
pub data Feeds (W : Type 0) (content : ℕ → ℕ) (total : ℕ)
    : Http → ℕ → Bool → Http → ℕ → Bool → Type 0 where
  still : (h : Http) (at : ℕ) (b : Bool) → Feeds W content total h at b h at b
  piece :
      (curl : Handles W) (curlbuf : Block) (size : ℕ) (h h' : Http) (at at' : ℕ) (b : Bool) (v : W)
      (r : Written W)
      → (h.curlbuf_off ≤ size) × (size ≤ curlbuf.len) × (size < size_mod) × (at + size ≤ total)
      → ((i : ℕ) → i < size → curlbuf.at i ≡ content (at + i))
      → write_cb_ curl curlbuf size h v ≡ some r
      → Feeds W content total r.http (goes_on_at at r.verdict) (is_pause r.verdict) h' at' b
      → Feeds W content total h at false h' at' b
  line :
      (c : Scanner) (text : Block) (nitems size : ℕ) (h h' : Http) (at at' : ℕ) (b b' : Bool)
      → Feeds W content total (header_cb_ c text nitems size h).0 at b h' at' b'
      → Feeds W content total h at b h' at' b'

-- They are calls of the two callbacks.
pub Feeds-Calls :
    {W : Type 0} {content : ℕ → ℕ} {total : ℕ} {h h' : Http} {at at' : ℕ} {b b' : Bool}
    → Feeds W content total h at b h' at' b'
    → Calls W h b h' b'
Feeds-Calls (still h at b) = quiet h b
Feeds-Calls (piece curl curlbuf n h h' at at' b v r f e w k) =
    body curl curlbuf n h h' b v r (f.0, f.1, f.2) w (Feeds-Calls k)
Feeds-Calls (line c text n s h h' at at' b b' k) = header c text n s h h' b b' (Feeds-Calls k)

module _ (content : ℕ → ℕ) (total : ℕ) (q : Request) (from : ℕ) where
  -- The read for `q` that was opened at the offset `from` has put the bytes from there on into its buffer,
  -- and `at` is where the next piece begins.
  pub record IsFilling (h : Http) (at : ℕ) : Type 0 where
    pub room : HasRoom h
    pub live : h.state ≢ abort_requested
    pub size_eq : h.outbuf_size ≡ q.len
    pub base_eq : h.outbuf_base ≡ q.base
    pub told : h.http_off ≡ ℤ.pos (from + h.outbuf_off)
    pub place : at + h.curlbuf_off ≡ from + h.outbuf_off
    pub inside : at + h.curlbuf_off ≤ total
    pub filled : (i : ℕ) → i < h.outbuf_off → h.outbuf.at (h.outbuf_base + i) ≡ content (from + i)

  -- Nothing of this is about the length, the status, ranges, or the state but for an abort.
  pub other-IsFilling :
      (h : Http) (at : ℕ) (len status : ℤ) (range : RangeAllowed) (st : State)
      → st ≢ abort_requested
      → IsFilling h at
      → IsFilling
          (record h {
            http_len = len;
            http_status = status;
            http_range_allowed = range;
            state = st;
          })
          at
  other-IsFilling h at len status range st ne t = record {
    room = record { out_le = t.room.out_le; out_in = t.room.out_in; out_small = t.room.out_small };
    live = ne;
    size_eq = t.size_eq;
    base_eq = t.base_eq;
    told = t.told;
    place = t.place;
    inside = t.inside;
    filled = t.filled;
  }

  opened-IsOpen :
      (curlbuf : Block) (size : ℕ) (h : Http) (at : ℕ)
      → (h.curlbuf_off ≤ size) × (size ≤ curlbuf.len) × (size < size_mod) × (at + size ≤ total)
      → IsFilling h at
      → IsOpen curlbuf size h
  opened-IsOpen curlbuf size h at f t = record {
    out_le = t.room.out_le;
    out_in = t.room.out_in;
    out_small = t.room.out_small;
    cur_le = f.0;
    cur_in = f.1;
    cur_small = f.2;
  }

  -- The bytes in the buffer, past a call
  moved-filled :
      {V : Type 0} (curlbuf : Block) (size : ℕ) (h : Http) (at : ℕ) (v : V) (r : Written V)
      → ((i : ℕ) → i < size → curlbuf.at i ≡ content (at + i))
      → h.curlbuf_off ≤ size
      → IsFilling h at
      → IsMoved curlbuf size h v r
      → (i : ℕ) → i < h.outbuf_off + moved curlbuf size h
      → r.http.outbuf.at (h.outbuf_base + i) ≡ content (from + i)
  moved-filled curlbuf size h at v r e le t m i l = elim (Bool-cases (ltb i h.outbuf_off)) [
    | inl lt ↦ m.frame (h.outbuf_base + i) (inl (ground arith)) ∙ t.filled i (ground arith)
    | inr ge ↦
        let j = i - h.outbuf_off in
        let p : h.outbuf_off + j ≡ i = ground arith in
        let b : j < moved curlbuf size h = omega (arith, p, l) in
        ap (λ k. r.http.outbuf.at (h.outbuf_base + k)) (sym p)
        ∙ m.copied j b
        ∙ e (h.curlbuf_off + j) (omega (arith, b, le))
        ∙ ap content (omega (arith, t.place, p))
  ]

  moved-IsFilling :
      {V : Type 0} (curlbuf : Block) (size : ℕ) (h : Http) (at : ℕ) (v : V) (r : Written V)
      → (h.curlbuf_off ≤ size) × (size ≤ curlbuf.len) × (size < size_mod) × (at + size ≤ total)
      → ((i : ℕ) → i < size → curlbuf.at i ≡ content (at + i))
      → IsFilling h at
      → IsMoved curlbuf size h v r
      → (at' : ℕ) → r.http.state ≢ abort_requested
      → at' + r.http.curlbuf_off ≡ at + (h.curlbuf_off + moved curlbuf size h)
      → IsFilling r.http at'
  moved-IsFilling curlbuf size h at v r f e t m at' ne p =
      let put : r.http.outbuf_off ≡ h.outbuf_off + moved curlbuf size h =
        ap (λ x. x.outbuf_off) m.rest in
      let size_eq : r.http.outbuf_size ≡ h.outbuf_size = ap (λ x. x.outbuf_size) m.rest in
      let base_eq : r.http.outbuf_base ≡ h.outbuf_base = ap (λ x. x.outbuf_base) m.rest in
      record {
        room = record {
          out_le = omega (arith, t.room.out_le);
          out_in = omega (arith, t.room.out_in, m.len_eq);
          out_small = omega (arith, t.room.out_small);
        };
        live = ne;
        size_eq = size_eq ∙ t.size_eq;
        base_eq = base_eq ∙ t.base_eq;
        told =
            ap (λ x. x.http_off) m.rest
            ∙ ap (λ z. add_off z (moved curlbuf size h)) t.told
            ∙ ap (λ k. ℤ.pos k) (omega (arith, put));
        place = omega (arith, p, put, t.place);
        inside = omega (arith, p, f);
        filled = λ i l.
            ap (λ k. r.http.outbuf.at (k + i)) base_eq
            ∙ moved-filled curlbuf size h at v r e f.0 t m i (omega (arith, l, put));
      }

  piece-IsFilling :
      {W : Type 0} (curl : Handles W) (curlbuf : Block) (size : ℕ) (h : Http) (at : ℕ) (v : W)
      (r : Written W)
      → (h.curlbuf_off ≤ size) × (size ≤ curlbuf.len) × (size < size_mod) × (at + size ≤ total)
      → ((i : ℕ) → i < size → curlbuf.at i ≡ content (at + i))
      → write_cb_ curl curlbuf size h v ≡ some r
      → IsFilling h at
      → IsFilling r.http (goes_on_at at r.verdict)
  piece-IsFilling curl curlbuf size h at v r f e w t =
      let (r', w', m') =
        write_cb_-IsMoved curlbuf size curl h v (opened-IsOpen curlbuf size h at f t) t.live in
      let m = subst (IsMoved curlbuf size h v) (some_inj r' r (sym w' ∙ w)) m' in
      elim m.verdict [
        | inl (d, c, s, a, b) ↦
            moved-IsFilling curlbuf size h at v r f e t m _ (λ x. t.live (sym s ∙ x))
              (ap (λ d. goes_on_at at d + r.http.curlbuf_off) d ∙ omega (arith, c, a))
        | inr (d, c, s, a) ↦
            moved-IsFilling curlbuf size h at v r f e t m _ (λ x. absurd (grind (arith, sym s ∙ x)))
              (ap (λ d. goes_on_at at d + r.http.curlbuf_off) d ∙ omega (arith, c))
      ]

  header-IsFilling :
      (c : Scanner) (b : Block) (nitems size : ℕ) (h : Http) (at : ℕ)
      → IsFilling h at
      → IsFilling (header_cb_ c b nitems size h).0 at
  header-IsFilling c b nitems size h at t =
      subst (λ x. IsFilling x at) (sym (header_cb_-IsParsed c b nitems size h).settled.rest)
        (other-IsFilling h at _ _ _ h.state t.live t)

  -- No call of the callbacks ends what the read keeps.
  pub Feeds-IsFilling :
      {W : Type 0} {h h' : Http} {at at' : ℕ} {b b' : Bool}
      → Feeds W content total h at b h' at' b'
      → IsFilling h at
      → IsFilling h' at'
  Feeds-IsFilling (still h at b) t = t
  Feeds-IsFilling (piece curl b n h h' at at' p v r f e w k) t =
      Feeds-IsFilling k (piece-IsFilling curl b n h at v r f e w t)
  Feeds-IsFilling (line c b n s h h' at at' p p' k) t =
      Feeds-IsFilling k (header-IsFilling c b n s h at t)
