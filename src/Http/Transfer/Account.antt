-- ===== src/Http/Transfer/Account.antt =====
-- What the callbacks change of the read that is open, whatever their order.
use libstreamlike.Http.Body.Deliver.{is_pause}
use libstreamlike.Common.{
  ◌⊎◌, inr, inl, false, Bool, some_inj, add_off-add, add_off-zero, add_off, ℕ, ◌+◌, ◌≤◌, ◌<◌, ◌≡◌,
  ◌∙◌, refl, sym, ap, subst, arith, some, size_mod,
}
use libstreamlike.Memory.{Block}
use libstreamlike.Http.{Http, State, ready, working, paused, abort_requested, aborted}
use libstreamlike.Http.Body.{Handles, Written, write_in, write_cb_, copy_body}
use libstreamlike.Http.Body.Copy.{IsOpen, moved, IsMoved, copy_body-IsMoved}
use libstreamlike.Http.Header.{Scanner, header_cb_}
use libstreamlike.Http.Header.Settled.{header_cb_-IsParsed}
use libstreamlike.Http.Transfer.{Calls, quiet, body, header}

-- The stretch of the open read lies in its block.
pub record HasRoom (h : Http) : Type 0 where
  pub out_le : h.outbuf_off ≤ h.outbuf_size
  pub out_in : h.outbuf_base + h.outbuf_size ≤ h.outbuf.len
  pub out_small : h.outbuf_size < size_mod

-- From `h` to `h'`, `n` bytes have been put into the stretch and counted in the offset.
pub record IsCounted (h h' : Http) (n : ℕ) : Type 0 where
  pub room : HasRoom h'
  pub size_eq : h'.outbuf_size ≡ h.outbuf_size
  pub base_eq : h'.outbuf_base ≡ h.outbuf_base
  pub put : h'.outbuf_off ≡ h.outbuf_off + n
  pub told : h'.http_off ≡ add_off h.http_off n

abbrev pub Counts : Http → Http → Type 0
Counts h h' = (n : ℕ) × IsCounted h h' n

pub same-Counts :
    (h h' : Http)
    → HasRoom h
    → h'.outbuf ≡ h.outbuf
    → h'.outbuf_size ≡ h.outbuf_size
    → h'.outbuf_base ≡ h.outbuf_base
    → h'.outbuf_off ≡ h.outbuf_off
    → h'.http_off ≡ h.http_off
    → Counts h h'
same-Counts h h' r o s b p t = (
  0,
  record {
    room = record {
      out_le = omega (arith, r.out_le);
      out_in =
          subst (λ k. h'.outbuf_base + h'.outbuf_size ≤ k) (ap (λ k. k.len) (sym o))
            (omega (arith, r.out_in));
      out_small = omega (arith, r.out_small);
    };
    size_eq = s;
    base_eq = b;
    put = omega arith;
    told = t ∙ sym (add_off-zero h.http_off);
  },
)

pub then-Counts : (h h' h'' : Http) → Counts h h' → Counts h' h'' → Counts h h''
then-Counts h h' h'' (m, a) (n, b) = (
  m + n,
  record {
    room = b.room;
    size_eq = b.size_eq ∙ a.size_eq;
    base_eq = b.base_eq ∙ a.base_eq;
    put = omega (arith, a.put, b.put);
    told = b.told ∙ ap (λ z. add_off z n) a.told ∙ add_off-add h.http_off m n;
  },
)

moved-Counts :
    {V : Type 0} (curlbuf : Block) (size : ℕ) (h : Http) (v : V) (r : Written V)
    → IsOpen curlbuf size h
    → IsMoved curlbuf size h v r
    → Counts h r.http
moved-Counts curlbuf size h v r o t =
    let put : r.http.outbuf_off ≡ h.outbuf_off + moved curlbuf size h =
      ap (λ x. x.outbuf_off) t.rest in
    let size_eq : r.http.outbuf_size ≡ h.outbuf_size = ap (λ x. x.outbuf_size) t.rest in
    let base_eq : r.http.outbuf_base ≡ h.outbuf_base = ap (λ x. x.outbuf_base) t.rest in
    (
      moved curlbuf size h,
      record {
        room = record {
          out_le = omega (arith, o.out_le);
          out_in = omega (arith, o.out_in, t.len_eq);
          out_small = omega (arith, o.out_small);
        };
        size_eq = size_eq;
        base_eq = base_eq;
        put = put;
        told = ap (λ x. x.http_off) t.rest;
      },
    )

copy-Counts :
    {V : Type 0} (curlbuf : Block) (size : ℕ) (h : Http) (v : V) (r : Written V)
    → IsOpen curlbuf size h
    → copy_body curlbuf size h v ≡ some r
    → Counts h r.http
copy-Counts curlbuf size h v r o e =
    let (r', e', t) = copy_body-IsMoved curlbuf size h v o in
    moved-Counts curlbuf size h v r o
      (subst (IsMoved curlbuf size h v) (some_inj r' r (sym e' ∙ e)) t)

opened-IsOpen :
    (b : Block) (n : ℕ) (h : Http)
    → HasRoom h
    → (h.curlbuf_off ≤ n) × (n ≤ b.len) × (n < size_mod)
    → IsOpen b n h
opened-IsOpen b n h r f = record {
  out_le = r.out_le;
  out_in = r.out_in;
  out_small = r.out_small;
  cur_le = f.0;
  cur_in = f.1;
  cur_small = f.2;
}

room-of : {curlbuf : Block} {size : ℕ} {h : Http} → IsOpen curlbuf size h → HasRoom h
room-of o = record { out_le = o.out_le; out_in = o.out_in; out_small = o.out_small }

write_in-Counts :
    {V : Type 0} (curl : Handles V) (st : State) (curlbuf : Block) (size : ℕ) (h : Http) (v : V)
    (r : Written V)
    → IsOpen curlbuf size h
    → write_in curl st curlbuf size h v ≡ some r
    → Counts h r.http
write_in-Counts curl ready b n h v r o e = copy-Counts b n h v r o e
write_in-Counts curl working b n h v r o e = copy-Counts b n h v r o e
write_in-Counts curl paused b n h v r o e = copy-Counts b n h v r o e
write_in-Counts curl aborted b n h v r o e = copy-Counts b n h v r o e
write_in-Counts curl abort_requested b n h v r o e =
    subst (λ k. Counts h k.http) (some_inj _ r e)
      (same-Counts h (record h { state = aborted }) (room-of o) refl refl refl refl refl)

-- The parsing of a line changes nothing of this.
header-Counts :
    (c : Scanner) (b : Block) (n s : ℕ) (h : Http) → HasRoom h → Counts h (header_cb_ c b n s h).0
header-Counts c b n s h r =
    let t = (header_cb_-IsParsed c b n s h).settled.rest in
    same-Counts h (header_cb_ c b n s h).0 r (ap (λ x. x.outbuf) t) (ap (λ x. x.outbuf_size) t)
      (ap (λ x. x.outbuf_base) t) (ap (λ x. x.outbuf_off) t) (ap (λ x. x.http_off) t)

piece-Counts :
    {V : Type 0} (curl : Handles V) (b : Block) (n : ℕ) (h : Http) (v : V) (w : Written V)
    → HasRoom h
    → (h.curlbuf_off ≤ n) × (n ≤ b.len) × (n < size_mod)
    → write_cb_ curl b n h v ≡ some w
    → Counts h w.http
unfolding write_cb_
piece-Counts curl b n h v w r f e =
    write_in-Counts curl h.state b n h v w (opened-IsOpen b n h r f) e

pub Calls-Counts :
    {W : Type 0} {h h' : Http} {b b' : Bool} → Calls W h b h' b' → HasRoom h → Counts h h'
Calls-Counts (quiet h b) r = same-Counts h h r refl refl refl refl refl
Calls-Counts (body curl b n h h' p v w f e k) r =
    let a = piece-Counts curl b n h v w r f e in then-Counts h w.http h' a (Calls-Counts k a.1.room)
Calls-Counts (header c b n s h h' p p' k) r =
    let a = header-Counts c b n s h r in then-Counts h _ h' a (Calls-Counts k a.1.room)

-- The transfer is not paused, or the stream knows, and the open read has all that it asks for.
abbrev pub IsHalted : Http → Bool → Type 0
IsHalted h b = (b ≡ false) ⊎ ((h.state ≡ paused) × (h.outbuf_off ≡ h.outbuf_size))

copy-IsHalted :
    {V : Type 0} (curlbuf : Block) (size : ℕ) (h : Http) (v : V) (r : Written V)
    → IsOpen curlbuf size h
    → copy_body curlbuf size h v ≡ some r
    → IsHalted r.http (is_pause r.verdict)
copy-IsHalted curlbuf size h v r o e =
    let (r', e', t') = copy_body-IsMoved curlbuf size h v o in
    let t = subst (IsMoved curlbuf size h v) (some_inj r' r (sym e' ∙ e)) t' in
    elim t.verdict [
      | inl (d, c, s, a, l) ↦ inl (ap is_pause d)
      | inr (d, c, s, a) ↦
          inr (s, ap (λ x. x.outbuf_off) t.rest ∙ a ∙ sym (ap (λ x. x.outbuf_size) t.rest))
    ]

write_in-IsHalted :
    {V : Type 0} (curl : Handles V) (st : State) (curlbuf : Block) (size : ℕ) (h : Http) (v : V)
    (r : Written V)
    → IsOpen curlbuf size h
    → write_in curl st curlbuf size h v ≡ some r
    → IsHalted r.http (is_pause r.verdict)
write_in-IsHalted curl ready b n h v r o e = copy-IsHalted b n h v r o e
write_in-IsHalted curl working b n h v r o e = copy-IsHalted b n h v r o e
write_in-IsHalted curl paused b n h v r o e = copy-IsHalted b n h v r o e
write_in-IsHalted curl aborted b n h v r o e = copy-IsHalted b n h v r o e
write_in-IsHalted curl abort_requested b n h v r o e =
    inl (ap (λ x. is_pause x.verdict) (sym (some_inj _ r e)))

pub Calls-IsHalted :
    {W : Type 0} {h h' : Http} {b b' : Bool}
    → Calls W h b h' b'
    → HasRoom h
    → IsHalted h b
    → IsHalted h' b'
unfolding write_cb_
Calls-IsHalted (quiet h b) r t = t
Calls-IsHalted (body curl b n h h' p v w f e k) r t =
    Calls-IsHalted k (piece-Counts curl b n h v w r f e).1.room
      (write_in-IsHalted curl h.state b n h v w (opened-IsOpen b n h r f) e)
Calls-IsHalted (header c b n s h h' p p' k) r t =
    let q = (header_cb_-IsParsed c b n s h).settled.rest in
    Calls-IsHalted k (header-Counts c b n s h r).1.room (subst (λ x. IsHalted x p) (sym q) t)
