-- ===== src/Http/Transfer/Order.antt =====
-- Reads of an HTTP stream, one after the other: their bytes are those of the resource, in order.
mod Tests
use libstreamlike.Http.Transfer.Reads.{
  goes_on-IsHalted, ready-IsHalted, Knows, halted-Knows, other-Knows,
}
use libstreamlike.Common.{
  add_off, ℕ, zero, suc, ◌+◌, ◌-◌, ◌≤◌, ◌<◌, ◌≡◌, ◌≢◌, ◌∙◌, refl, sym, ap, ap₂, subst, arith, ◌⊎◌,
  inl, inr, Bool, true, false, not, ◌&&◌, ◌==◌, Bool-cases, min, List, [], ◌∷◌, ◌++◌, Option, some,
  ◌>>=◌, Ensures, Ensures-bind, ℤ, size_mod,
}
use libstreamlike.Memory.{Block, bytes, bytes-ext, bytes-append}
use libstreamlike.Http.{Http, State, ready, working, paused, abort_requested, aborted, tell_cb}
use libstreamlike.Http.Body.Deliver.{Request, open_read, total_len, Fits}
use libstreamlike.Http.Transfer.{Performed, Curl, resume, read_loop, read_cb}
use libstreamlike.Http.Transfer.Account.{IsHalted, Calls-IsHalted, HasRoom}
use libstreamlike.Http.Transfer.Loop.{IsKept, loop-Leaves}
use libstreamlike.Http.Transfer.Feed.{
  Feeds-Calls, Feeds, still, IsFilling, other-IsFilling, Feeds-IsFilling,
}

-- A transfer of a resource of `total` bytes. `at` is where the piece begins that cURL will hand over next,
-- `is_paused` says whether the transfer is paused, `Ready` ties what cURL keeps to how much of that piece has been taken before, and `left` bounds the
-- rounds of `curl_multi_perform` that are left. cURL touches the stream only through the callbacks,
-- which it gives the bytes of the resource in order; it hands nothing over while the transfer is paused,
-- and nothing is said of how that goes on before it is unpaused. Where no transfer is running any more,
-- it is not paused, and all of it has been handed over, or the transfer failed. `Failed` holds where
-- that is so, and where a call of cURL does not return `CURLM_OK`.
pub record IsFeed {W : Type 0} (curl : Curl W) (content : ℕ → ℕ) (total : ℕ) (is_paused : W → Bool)
    (Ready : ℕ → W → Type 0) (at left : W → ℕ) (Failed : Type 0) : Type 0 where
  pub performs :
      (h : Http) (w : W)
      → HasRoom h
      → h.state ≢ abort_requested
      → is_paused w ≡ false
      → Ready h.curlbuf_off w
      → (p : Performed W) × (curl.perform h w ≡ some p)
        × Feeds W content total h (at w) false p.http (at p.world) (is_paused p.world)
        × Ready p.http.curlbuf_off p.world
        × (left p.world ≤ left w)
        × (p.http.outbuf_off < p.http.outbuf_size → p.count ≢ 0 → left p.world < left w)
        × (p.count ≡ 0 → (is_paused p.world ≡ false) × ((at p.world ≡ total) ⊎ Failed))
        × (p.ok ≡ false → Failed)
  pub unpauses :
      (h : Http) (w : W)
      → HasRoom h
      → h.state ≢ abort_requested
      → Ready h.curlbuf_off w
      → (r : Http × W) × (curl.unpause h w ≡ some r)
        × Feeds W content total h (at w) false r.0 (at r.1) (is_paused r.1)
        × Ready r.0.curlbuf_off r.1
        × (left r.1 ≤ left w)
  pub waits :
      (c : ℕ) (w : W)
      → Ready c w
      → Ready c (curl.wait w).0
        × (at (curl.wait w).0 ≡ at w)
        × (is_paused (curl.wait w).0 ≡ is_paused w)
        × (left (curl.wait w).0 ≤ left w)
        × ((curl.wait w).1 ≡ false → Failed)

-- The requests read one after the other, and the bytes that they return
unfoldable pub read_all :
    {W : Type 0} → Curl W → ℕ → List Request → Http → W → Option (List ℕ × Http × W)
unfolding read_cb
read_all curl fuel [] h w = some ([], h, w)
read_all curl fuel (q ∷ qs) h w = read_cb curl fuel q h w >>= λ r.
    read_all curl fuel qs r.0 r.1 >>= λ t.
    some (bytes (λ i. r.0.outbuf.at (q.base + i)) r.2 ++ t.0, t.1, t.2)

why_ended : (ok : Bool) (n : ℕ) → (ok && not (n == 0)) ≡ false → (n ≡ 0) ⊎ (ok ≡ false)
why_ended true n e = inl (ground arith)
why_ended false n e = inr refl

module _ {content : ℕ → ℕ} {total : ℕ} (q : Request) (from : ℕ) where
  set_state-IsFilling :
      (st : State) (h : Http) (at : ℕ)
      → st ≢ abort_requested
      → IsFilling content total q from h at
      → IsFilling content total q from (record h { state = st }) at
  set_state-IsFilling st h at ne t =
      other-IsFilling content total q from h at h.http_len h.http_status h.http_range_allowed st ne
        t

module _ {W : Type 0} (curl : Curl W) (content : ℕ → ℕ) (total : ℕ) (is_paused : W → Bool)
    (Ready : ℕ → W → Type 0) (at left : W → ℕ) where
  -- Between two reads, the stream stands at the offset `from` of the resource, and knows whether its
  -- transfer is paused.
  pub record StandsAt (from : ℕ) (h : Http) (w : W) : Type 0 where
    pub live : h.state ≢ abort_requested
    pub told : tell_cb h ≡ ℤ.pos from
    pub place : at w + h.curlbuf_off ≡ from
    pub inside : from ≤ total
    pub ready : Ready h.curlbuf_off w
    pub knows : Knows h (is_paused w)

  module _ (Failed : Type 0) (c : IsFeed curl content total is_paused Ready at left Failed) where
    module _ (q : Request) (from most : ℕ) where
      -- What the read keeps, and why it may end early
      abbrev Filling : Http → W → Type 0
      Filling h w =
          IsFilling content total q from h (at w)
          × Ready h.curlbuf_off w
          × (left w ≤ most)
          × IsHalted h (is_paused w)

      abbrev Short : ℕ → W → Type 0
      Short n w = (from + n ≡ total) ⊎ Failed

      Filling-IsKept : IsKept curl Filling Short left
      Filling-IsKept = record {
        waits = λ h w g.
            let (d, a, b, le, f) = c.waits h.curlbuf_off w g.1 in
            (
              (
                subst (IsFilling content total q from h) (sym a) g.0,
                d,
                omega (arith, g.2, le),
                subst (IsHalted h) (sym b) g.3,
              ),
              le,
            );
        fails = λ h w g e. inr ((c.waits h.curlbuf_off w g.1).4 e);
        performs = λ h w g l.
            let (p, e, k, d, le, fewer, all, f) =
              c.performs h w g.0.room g.0.live (goes_on-IsHalted h (is_paused w) g.3 l) g.1 in
            let t = Feeds-IsFilling content total q from k g.0 in
            (
              p,
              e,
              (t, d, omega (arith, g.2, le), Calls-IsHalted (Feeds-Calls k) g.0.room (inl refl)),
              fewer,
              λ z. (
                set_state-IsFilling q from ready p.http (at p.world)
                    (λ x. absurd (grind (arith, x))) t,
                d,
                omega (arith, g.2, le),
                inl (all z).0,
              ),
              λ x. elim (why_ended p.ok p.count x) [
                | inl z ↦ elim (all z).1 [
                  | inl e ↦ inl (omega (arith, e, t.place, t.inside))
                  | inr y ↦ inr y
                ]
                | inr y ↦ inr (f y)
              ],
            );
        works = λ h w g e. (
          set_state-IsFilling q from working h (at w) (λ x. absurd (grind (arith, x))) g.0,
          g.1,
          g.2,
          inl (ready-IsHalted h (is_paused w) g.3 e),
        );
      }

      -- A read that has just been opened
      abbrev Opened : Http → W → Type 0
      Opened h w =
          IsFilling content total q from h (at w)
          × Ready h.curlbuf_off w
          × (left w ≤ most)
          × Knows h (is_paused w)

      unpaused-Filling :
          (st : State) (h : Http) (w : W) → h.state ≡ st → st ≢ paused → Opened h w → Filling h w
      unpaused-Filling st h w e n g = (g.0, g.1, g.2, inl (other-Knows h (is_paused w) st e n g.3))

      resume-Filling :
          (st : State) (h : Http) (w : W)
          → h.state ≡ st
          → Opened h w
          → (r : Http × W) × (resume curl st h w ≡ some r) × Filling r.0 r.1
      resume-Filling ready h w e g =
          ((h, w), refl, unpaused-Filling ready h w e (λ x. absurd (grind (arith, x))) g)
      resume-Filling working h w e g =
          ((h, w), refl, unpaused-Filling working h w e (λ x. absurd (grind (arith, x))) g)
      resume-Filling abort_requested h w e g =
          ((h, w), refl, unpaused-Filling abort_requested h w e (λ x. absurd (grind (arith, x))) g)
      resume-Filling aborted h w e g =
          ((h, w), refl, unpaused-Filling aborted h w e (λ x. absurd (grind (arith, x))) g)
      resume-Filling paused h w e g =
          let (r, u, k, d, le) = c.unpauses h w g.0.room g.0.live g.1 in
          (
            r,
            u,
            (
              Feeds-IsFilling content total q from k g.0,
              d,
              omega (arith, g.2, le),
              Calls-IsHalted (Feeds-Calls k) g.0.room (inl refl),
            ),
          )

      open-Filling :
          (h : Http) (w : W)
          → q.base + q.len ≤ q.buffer.len
          → q.len < size_mod
          → StandsAt from h w
          → left w ≤ most
          → Opened (open_read q h) w
      unfolding tell_cb
      open-Filling h w room small t le = (
        record {
          room = record { out_le = omega arith; out_in = room; out_small = small };
          live = t.live;
          size_eq = refl;
          base_eq = refl;
          told = t.told ∙ ap (λ k. ℤ.pos k) (omega arith);
          place = omega (arith, t.place);
          inside = omega (arith, t.place, t.inside);
          filled = λ i l. absurd (omega (arith, l));
        },
        t.ready,
        le,
        t.knows,
      )

    -- What a read returns: `r.2` bytes from the offset on, and fewer than it asks for only at the end or where
    -- cURL failed
    pub record IsReadAt (q : Request) (from most : ℕ) (r : Http × W × ℕ) : Type 0 where
      pub stands : StandsAt (from + r.2) r.0 r.1
      pub rounds : left r.1 ≤ most
      pub at_most : r.2 ≤ q.len
      pub got : bytes (λ i. r.0.outbuf.at (q.base + i)) r.2 ≡ bytes (λ i. content (from + i)) r.2
      pub short : (q.len ≤ r.2) ⊎ (from + r.2 ≡ total) ⊎ Failed

    filled-IsReadAt :
        (q : Request) (from most : ℕ) (r : Http × W × ℕ)
        → Filling q from most r.0 r.1
        → r.2 ≡ r.0.outbuf_off
        → (r.0.outbuf_size ≤ r.2) ⊎ Short q from most r.2 r.1
        → IsReadAt q from most r
    unfolding tell_cb
    filled-IsReadAt q from most r (t, d, le, y) e s = record {
      stands = record {
        live = t.live;
        told = t.told ∙ ap (λ k. ℤ.pos (from + k)) (sym e);
        place = omega (arith, t.place, e);
        inside = omega (arith, t.place, t.inside, e);
        ready = d;
        knows = halted-Knows r.0 (is_paused r.1) y;
      };
      rounds = le;
      at_most = omega (arith, t.room.out_le, t.size_eq, e);
      got =
          bytes-ext (λ i. r.0.outbuf.at (q.base + i)) (λ i. content (from + i)) r.2
            (λ i l.
              ap (λ b. r.0.outbuf.at (b + i)) (sym t.base_eq) ∙ t.filled i (omega (arith, l, e)));
      short = elim s [ inl a ↦ inl (omega (arith, a, t.size_eq)) | inr b ↦ inr b ];
    }

    -- One read
    read_cb-IsReadAt :
        (fuel : ℕ) (q : Request) (from most : ℕ) (h : Http) (w : W)
        → q.base + q.len ≤ q.buffer.len
        → q.len < size_mod
        → StandsAt from h w
        → left w ≤ most
        → most + 1 < fuel
        → Ensures (IsReadAt q from most) (read_cb curl fuel q h w)
    unfolding read_cb
    read_cb-IsReadAt fuel q from most h w room small t le l =
        let (s, e, g) =
          resume-Filling q from most h.state (open_read q h) w refl
            (open-Filling q from most h w room small t le) in
        let (r, e', g', z, why) =
          loop-Leaves curl (Filling q from most) (Short q from most) left
            (Filling-IsKept q from most) fuel s.0 s.1 g (omega (arith, g.2, l)) in
        rw (e, e') (filled-IsReadAt q from most r g' z why)

    -- What reads one after the other return
    pub record IsInOrder (qs : List Request) (from : ℕ) (t : List ℕ × Http × W) : Type 0 where
      pub count : ℕ
      pub got : t.0 ≡ bytes (λ i. content (from + i)) count
      pub at_most : count ≤ total_len qs
      pub stands : StandsAt (from + count) t.1 t.2
      pub short : (count ≡ min (total_len qs) (total - from)) ⊎ Failed

    then-IsInOrder :
        (q : Request) (qs : List Request) (from most : ℕ) (r : Http × W × ℕ) (t : List ℕ × Http × W)
        → IsReadAt q from most r
        → IsInOrder qs (from + r.2) t
        → IsInOrder (q ∷ qs) from (bytes (λ i. r.0.outbuf.at (q.base + i)) r.2 ++ t.0, t.1, t.2)
    then-IsInOrder q qs from most r t a b = record {
      count = r.2 + b.count;
      got =
          ap₂ ◌++◌ a.got b.got
          ∙ bytes-append (λ i. content (from + i)) (λ i. content (from + r.2 + i))
              (λ i. content (from + i)) r.2 b.count (r.2 + b.count) refl (λ i l. refl)
              (λ i l. ap content (omega arith));
      at_most = omega (arith, a.at_most, b.at_most);
      stands = subst (λ k. StandsAt k t.1 t.2) (omega arith) b.stands;
      short = elim b.short [
        | inr f ↦ inr f
        | inl e ↦ elim a.short [
          | inr (inr f) ↦ inr f
          | inr (inl z) ↦ inl (omega (arith, e, z, a.at_most, b.at_most))
          | inl z ↦ inl (omega (arith, e, z, a.at_most, a.stands.inside))
        ]
      ];
    }

    reads-IsInOrder :
        (fuel most : ℕ) (qs : List Request) (from : ℕ) (h : Http) (w : W)
        → Fits qs
        → StandsAt from h w
        → left w ≤ most
        → most + 1 < fuel
        → Ensures (IsInOrder qs from) (read_all curl fuel qs h w)
    unfolding read_all
    reads-IsInOrder fuel most [] from h w f t le l = record {
      count = 0;
      got = refl;
      at_most = omega arith;
      stands = subst (λ k. StandsAt k h w) (omega arith) t;
      short = inl (omega arith);
    }
    reads-IsInOrder fuel most (q ∷ qs) from h w f t le l =
        Ensures-bind (IsReadAt q from most) (IsInOrder (q ∷ qs) from) _
          (λ r a.
            Ensures-bind (IsInOrder qs (from + r.2)) (IsInOrder (q ∷ qs) from)
              (λ t. some (bytes (λ i. r.0.outbuf.at (q.base + i)) r.2 ++ t.0, t.1, t.2))
              (λ t b. then-IsInOrder q qs from most r t a b) (read_all curl fuel qs r.0 r.1)
              (reads-IsInOrder fuel most qs (from + r.2) r.0 r.1 f.2 a.stands a.rounds l))
          (read_cb curl fuel q h w) (read_cb-IsReadAt fuel q from most h w f.0 f.1 t le l)

    -- Reads of `sl_http_read_cb`, one after the other, into buffers that have the room asked for, on a stream
    -- that stands at `from`, with a cURL that hands over the resource in order while the transfer is not
    -- paused, and of which nothing is expected before it is unpaused, and with fuel for two
    -- rounds more than are left: each returns, and the bytes that they return are those of the
    -- resource from `from` on, none twice and none left out, however cURL cuts the body into pieces.
    -- They are no more than the reads ask for, and fewer than that and than is left of the resource only
    -- where the transfer or a call of cURL failed. The stream stands behind them.
    pub read_all-IsInOrder :
        (fuel : ℕ) (qs : List Request) (from : ℕ) (h : Http) (w : W)
        → Fits qs
        → StandsAt from h w
        → left w + 1 < fuel
        → Ensures (IsInOrder qs from) (read_all curl fuel qs h w)
    read_all-IsInOrder fuel qs from h w f t l =
        reads-IsInOrder fuel (left w) qs from h w f t (omega arith) l
