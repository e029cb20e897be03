-- ===== src/Http/Transfer/Tests.antt =====
-- A cURL that hands over pieces of three bytes, and a read from it.
use libstreamlike.Common.{
  ◌-◌, sym, ◌∙◌, add_off, ℕ, ◌≤◌, ◌<◌, ◌≡◌, ◌≢◌, refl, ap, arith, inl, inr, Bool-cases, true, false,
  leb, ℤ, some, Ensures, add_size, sub_size,
}
use libstreamlike.Memory.{memcpy}
use libstreamlike.Http.{Http, State, ready, working, paused, abort_requested, aborted, tell_cb}
use libstreamlike.Http.Body.{stop, Written, write_cb_, write_in, copy_body}
use libstreamlike.Http.Body.Deliver.{Request}
use libstreamlike.Http.Transfer.{Performed, read_loop, read_cb, Calls, quiet, body}
use libstreamlike.Http.Transfer.Account.{HasRoom}
use libstreamlike.Http.Transfer.Feed.{Feeds-Calls}
use libstreamlike.Http.Transfer.Reads.{IsCurl, Knows, read_cb-IsRead}
use libstreamlike.Http.Samples.{
  Place, is_paused, handles, size_of, piece_of, hand_over, go_on, pieces, Before, rounds_left,
  pieces-IsFeed, opened,
}

-- A piece that is handed over to a stream that asks for an abort
refused : Http → Place → Written Place
refused h x = record { http = record h { state = aborted }; world = x; verdict = stop }

write_cb_-refused :
    (h : Http) (x : Place)
    → h.state ≡ abort_requested
    → write_cb_ handles (piece_of x.0) (size_of x.0) h x ≡ some (refused h x)
unfolding write_cb_ refused
write_cb_-refused h x e = ap (λ st. write_in handles st (piece_of x.0) (size_of x.0) h x) e

refused-Calls :
    (h : Http) (x : Place)
    → Before h.curlbuf_off x
    → h.state ≡ abort_requested
    → Calls Place h false (refused h x).http false
unfolding refused
refused-Calls h x d e =
    body handles (piece_of x.0) (size_of x.0) h (record h { state = aborted }) false x (refused h x)
      (omega (arith, d), omega arith, omega arith) (write_cb_-refused h x e)
      (quiet (record h { state = aborted }) false)

-- What a round leaves
abbrev Rounds : Http → Place → Type 0
Rounds h x =
    (p : Performed Place) × (hand_over h x ≡ some p)
    × Calls Place h false p.http p.world.1
    × Before p.http.curlbuf_off p.world
    × (p.http.outbuf_off < p.http.outbuf_size → p.count ≢ 0 → 15 - p.world.0 < 15 - x.0)
    × (p.count ≡ 0 → p.world.1 ≡ false)

live-Rounds :
    (h : Http) (x : Place)
    → HasRoom h
    → h.state ≢ abort_requested
    → x.1 ≡ false
    → Before h.curlbuf_off x
    → Rounds h x
live-Rounds h x r ne b d =
    let (p, q, k, d', le, fewer, over, f) = pieces-IsFeed.performs h x r ne b d in
    (p, q, Feeds-Calls k, d', fewer, λ z. (over z).0)

hand_over-Rounds :
    (st : State) (h : Http) (x : Place)
    → h.state ≡ st
    → HasRoom h
    → x.1 ≡ false
    → Before h.curlbuf_off x
    → Rounds h x
unfolding hand_over refused
hand_over-Rounds ready h x e r b d = live-Rounds h x r (λ y. absurd (grind (arith, sym e ∙ y))) b d
hand_over-Rounds working h x e r b d =
    live-Rounds h x r (λ y. absurd (grind (arith, sym e ∙ y))) b d
hand_over-Rounds paused h x e r b d = live-Rounds h x r (λ y. absurd (grind (arith, sym e ∙ y))) b d
hand_over-Rounds aborted h x e r b d =
    live-Rounds h x r (λ y. absurd (grind (arith, sym e ∙ y))) b d
hand_over-Rounds abort_requested h x e r b d = elim (Bool-cases (leb 15 x.0)) [
  | inl z ↦ rw (b, z) (_, refl, quiet h false, d, λ l n. absurd (n refl), λ _. refl)
  | inr z ↦
      rw (b, z, write_cb_-refused h (x.0, false) e)
        (_, refl, refused-Calls h (x.0, false) d e, d, λ l n. absurd (n refl), λ _. refl)
]

go_on-Calls :
    (st : State) (h : Http) (x : Place)
    → h.state ≡ st
    → Before h.curlbuf_off x
    → (r : Http × Place) × (go_on st h x ≡ some r)
      × Calls Place h false r.0 r.1.1
      × Before r.0.curlbuf_off r.1
      × (15 - r.1.0 ≤ 15 - x.0)
unfolding refused
go_on-Calls ready h x e d = (_, refl, quiet h false, d, omega arith)
go_on-Calls working h x e d = (_, refl, quiet h false, d, omega arith)
go_on-Calls paused h x e d = (_, refl, quiet h false, d, omega arith)
go_on-Calls aborted h x e d = (_, refl, quiet h false, d, omega arith)
go_on-Calls abort_requested h x e d =
    rw (write_cb_-refused h x e) (_, refl, refused-Calls h x d e, d, omega arith)

pieces-IsCurl : IsCurl pieces is_paused Before rounds_left
pieces-IsCurl = record {
  performs = λ h x r b d. hand_over-Rounds h.state h x refl r b d;
  unpauses = λ h x r d. go_on-Calls h.state h x refl d;
  waits = λ c x d. (d, refl, omega arith);
}

abbrev request : Request
request = record { buffer = record { len = 9; at = λ i. 0 }; base = 2; len = 4 }

-- Two bytes of a piece, and two of the next
read_cb-opened :
    Ensures
      (λ r. (r.2 ≡ 4) × (r.1 ≡ (9, true)) × (r.0.http_off ≡ ℤ.pos 11) × (r.0.curlbuf_off ≡ 2))
      (read_cb pieces 17 request opened (6, true))
unfolding read_cb read_loop hand_over write_cb_ copy_body memcpy add_size sub_size
read_cb-opened = (refl, refl, refl, refl)

read_cb-IsRead_example :
    (r : Http × Place × ℕ) × (read_cb pieces 17 request opened (6, true) ≡ some r)
    × (r.2 ≤ 4)
    × (tell_cb r.0 ≡ add_off (tell_cb opened) r.2)
    × Knows r.0 (is_paused r.1)
read_cb-IsRead_example =
    read_cb-IsRead pieces is_paused Before rounds_left pieces-IsCurl 17 request opened (6, true)
      (omega arith) (omega arith) (inr refl) (omega arith) (omega arith)
