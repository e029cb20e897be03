-- ===== src/Http/Samples.antt =====
-- A resource of fifteen bytes that cURL hands over in pieces of three, for the tests.
use libstreamlike.Common.{
  ◌⊎◌, false, Bool, Bool-cases, leb, ℕ, ◌+◌, ◌-◌, ◌≤◌, ◌<◌, ◌≡◌, ◌≢◌, refl, sym, ap, subst, arith,
  inl, inr, true, false, min, if◌then◌else◌, List, [], ◌∷◌, Option, some, ◌>>=◌, ℤ,
}
use libstreamlike.Memory.{Block}
use libstreamlike.Http.{
  Http, State, range_unknown, ready, working, paused, abort_requested, aborted,
}
use libstreamlike.Http.Body.{Handles, Verdict, stop, took, pause, Written, write_cb_}
use libstreamlike.Http.Body.Copy.{IsOpen, moved, IsMoved}
use libstreamlike.Http.Body.Deliver.{is_pause, Request, Fits, write_cb_-IsMoved}
use libstreamlike.Http.Transfer.{Performed, Curl}
use libstreamlike.Http.Transfer.Account.{HasRoom}
use libstreamlike.Http.Transfer.Feed.{Feeds, still, piece, goes_on_at}
use libstreamlike.Http.Transfer.Order.{IsFeed}

-- What cURL keeps: where the next piece begins, and whether the transfer is paused
abbrev pub Place : Type 0
Place = ℕ × Bool

abbrev pub place : Place → ℕ
place x = x.0

abbrev pub is_paused : Place → Bool
is_paused x = x.1

abbrev pub handles : Handles Place
handles = record { remove_handle = λ w. w; add_handle = λ w. w }

-- How long the piece is that begins at an offset, and the piece; byte `i` of the resource is `i + 10`.
abbrev pub size_of : ℕ → ℕ
size_of w = min 3 (15 - w)

abbrev pub piece_of : ℕ → Block
piece_of w = record { len = 3; at = λ i. w + i + 10 }

-- What is left after a call of the body callback
abbrev after : ℕ → Http → Verdict → Performed Place
after w h stop = record { http = h; world = (w, false); ok = true; count = 0 }
after w h (took k) = record { http = h; world = (w + k, false); ok = true; count = 1 }
after w h pause = record { http = h; world = (w, true); ok = true; count = 1 }

-- A paused transfer runs, but hands nothing over.
unfoldable pub hand_over : Http → Place → Option (Performed Place)
hand_over h x =
    if x.1
    then some (record { http = h; world = x; ok = true; count = 1 })
    else if leb 15 x.0
    then some (record { http = h; world = x; ok = true; count = 0 })
    else (write_cb_ handles (piece_of x.0) (size_of x.0) h x >>= λ r.
        some (after x.0 r.http r.verdict))

-- A transfer that is asked to abort hands over the piece that was held back.
abbrev pub go_on : State → Http → Place → Option (Http × Place)
go_on abort_requested h x =
    write_cb_ handles (piece_of x.0) (size_of x.0) h x >>= λ r. some (r.http, (x.0, false))
go_on _ h x = some (h, (x.0, false))

abbrev pub pieces : Curl Place
pieces = record { wait = λ x. (x, true); perform = hand_over; unpause = λ h x. go_on h.state h x }

abbrev pub Before : ℕ → Place → Type 0
Before c x = (c ≤ 3) × (x.0 + c ≤ 15)

abbrev pub rounds_left : Place → ℕ
rounds_left x = 15 - x.0

-- What a round leaves, where no call fails
abbrev Handed : Http → ℕ → Performed Place → Type 0
Handed h w p =
    Feeds Place (λ i. i + 10) 15 h w false p.http p.world.0 p.world.1
    × ((p.http.curlbuf_off ≤ 3) × (p.world.0 + p.http.curlbuf_off ≤ 15))
    × (15 - p.world.0 ≤ 15 - w)
    × (p.http.outbuf_off < p.http.outbuf_size → p.count ≢ 0 → 15 - p.world.0 < 15 - w)
    × (p.count ≡ 0 → (p.world.1 ≡ false) × ((p.world.0 ≡ 15) ⊎ ⊥))
    × (p.ok ≡ false → ⊥)

moved-Handed :
    (w : ℕ) (h : Http) (v : Place) (r : Written Place)
    → w < 15
    → Before h.curlbuf_off (w, false)
    → write_cb_ handles (piece_of w) (size_of w) h v ≡ some r
    → IsMoved (piece_of w) (size_of w) h v r
    → Handed h w (after w r.http r.verdict)
moved-Handed w h v0 r lt d q m =
    let size_eq : r.http.outbuf_size ≡ h.outbuf_size = ap (λ x. x.outbuf_size) m.rest in
    let put : r.http.outbuf_off ≡ h.outbuf_off + moved (piece_of w) (size_of w) h =
      ap (λ x. x.outbuf_off) m.rest in
    let b : (verdict : Verdict)
        → r.verdict ≡ verdict
        → Feeds Place (λ i. i + 10) 15 h w false r.http (goes_on_at w verdict) (is_pause verdict) =
      λ verdict e.
        piece handles (piece_of w) (size_of w) h r.http w (goes_on_at w verdict) (is_pause verdict)
          v0 r (omega (arith, d), omega arith, omega arith, omega (arith, lt)) (λ i l. refl) q
          (subst
            (λ k.
              Feeds Place (λ i. i + 10) 15 r.http (goes_on_at w r.verdict) (is_pause r.verdict)
                r.http (goes_on_at w k) (is_pause k))
            e (still r.http (goes_on_at w r.verdict) (is_pause r.verdict))) in
    elim m.verdict [
      | inl (v, c, s, a, l) ↦
          subst (λ x. Handed h w (after w r.http x)) (sym v)
            (
              b (took (size_of w)) v,
              omega (arith, c, lt),
              omega arith,
              λ x y. omega (arith, lt),
              λ x. absurd (omega (arith, x)),
              λ x. absurd (grind (arith, x)),
            )
      | inr (v, c, s, a) ↦
          subst (λ x. Handed h w (after w r.http x)) (sym v)
            (
              b pause v,
              omega (arith, c, d, lt),
              omega arith,
              λ x y. absurd (omega (arith, x, put, size_eq, a)),
              λ x. absurd (omega (arith, x)),
              λ x. absurd (grind (arith, x)),
            )
    ]

hand_over-Handed :
    (h : Http) (x : Place)
    → HasRoom h
    → h.state ≢ abort_requested
    → x.1 ≡ false
    → Before h.curlbuf_off x
    → (p : Performed Place) × (hand_over h x ≡ some p) × Handed h x.0 p
unfolding hand_over
hand_over-Handed h x r ne b d = elim (Bool-cases (leb 15 x.0)) [
  | inl e ↦
      rw (b, e)
        (
          _,
          refl,
          (
            still h x.0 false,
            d,
            omega arith,
            λ x y. absurd (y refl),
            λ z. (refl, inl (ground (arith, d, e))),
            λ x. absurd (grind (arith, x)),
          ),
        )
  | inr e ↦
      let o : IsOpen (piece_of x.0) (size_of x.0) h = record {
        out_le = r.out_le;
        out_in = r.out_in;
        out_small = r.out_small;
        cur_le = omega (arith, d);
        cur_in = omega arith;
        cur_small = omega arith;
      } in
      let (y, q, m) = write_cb_-IsMoved (piece_of x.0) (size_of x.0) handles h (x.0, false) o ne in
      rw (b, e, q)
        (
          after x.0 y.http y.verdict,
          refl,
          moved-Handed x.0 h (x.0, false) y (ground (arith, e)) d q m,
        )
]

go_on-still :
    (st : State) (h : Http) (x : Place)
    → st ≢ abort_requested
    → go_on st h x ≡ some (h, (x.0, false))
go_on-still ready h x ne = refl
go_on-still working h x ne = refl
go_on-still paused h x ne = refl
go_on-still abort_requested h x ne = absurd (ne refl)
go_on-still aborted h x ne = refl

pub pieces-IsFeed : IsFeed pieces (λ i. i + 10) 15 is_paused Before place rounds_left ⊥
pieces-IsFeed = record {
  performs = λ h x r ne b d.
      let (p, q, k) = hand_over-Handed h x r ne b d in (p, q, k.0, k.1, k.2, k.3, k.4, k.5);
  unpauses = λ h x r ne d.
      ((h, (x.0, false)), go_on-still h.state h x ne, still h x.0 false, d, omega arith);
  waits = λ c x d. (d, refl, refl, omega arith, λ x. absurd (grind (arith, x)));
}

-- A stream that has read seven bytes, one of them of the piece that begins at 6
abbrev pub opened : Http
opened = record {
  http_off = ℤ.pos 7;
  http_len = ℤ.negsuc 0;
  http_status = ℤ.pos 200;
  http_range_allowed = range_unknown;
  curlbuf_off = 1;
  outbuf_off = 0;
  outbuf_size = 0;
  outbuf = piece_of 0;
  outbuf_base = 0;
  state = paused;
}

-- Two bytes, then one, then more than are left
abbrev pub requests : List Request
requests =
    record { buffer = piece_of 0; base = 0; len = 2 }
    ∷ record { buffer = record { len = 9; at = λ i. 0 }; base = 2; len = 1 }
    ∷ record { buffer = record { len = 9; at = λ i. 0 }; base = 0; len = 9 }
    ∷ []

pub requests-fit : Fits requests
requests-fit = omega arith
