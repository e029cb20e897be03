-- ===== src/Http/Transfer/Order/Tests.antt =====
-- Reads of a resource that cURL hands over in pieces of three bytes.
use libstreamlike.Common.{inr, true, ◌+◌, ◌≡◌, refl, arith, [], ◌∷◌, Ensures, ℤ, add_size, sub_size}
use libstreamlike.Memory.{memcpy}
use libstreamlike.Http.{ready, tell_cb}
use libstreamlike.Http.Body.{write_cb_, copy_body}
use libstreamlike.Http.Transfer.{read_loop, read_cb}
use libstreamlike.Http.Transfer.Order.{StandsAt, IsInOrder, read_all, read_all-IsInOrder}
use libstreamlike.Http.Samples.{
  is_paused, place, hand_over, pieces, Before, rounds_left, pieces-IsFeed, opened, requests,
  requests-fit,
}

opened-StandsAt :
    StandsAt pieces (λ i. i + 10) 15 is_paused Before place rounds_left 7 opened (6, true)
unfolding tell_cb
opened-StandsAt = record {
  live = λ x. absurd (grind (arith, x));
  told = refl;
  place = refl;
  inside = omega arith;
  ready = omega arith;
  knows = inr refl;
}

read_all-opened :
    Ensures
      (λ r.
        (r.0 ≡ 17 ∷ 18 ∷ 19 ∷ 20 ∷ 21 ∷ 22 ∷ 23 ∷ 24 ∷ [])
        × (r.1.http_off ≡ ℤ.pos 15)
        × (r.1.state ≡ ready))
      (read_all pieces 17 requests opened (6, true))
unfolding read_all read_cb read_loop hand_over write_cb_ copy_body memcpy add_size sub_size
read_all-opened = (refl {a = 17 ∷ 18 ∷ 19 ∷ 20 ∷ 21 ∷ 22 ∷ 23 ∷ 24 ∷ []}, refl, refl)

read_all-IsInOrder_example :
    Ensures
      (IsInOrder pieces
        (λ i. i + 10)
        15
        is_paused
        Before
        place
        rounds_left
        ⊥
        pieces-IsFeed
        requests
        7)
      (read_all pieces 17 requests opened (6, true))
read_all-IsInOrder_example =
    read_all-IsInOrder pieces (λ i. i + 10) 15 is_paused Before place rounds_left ⊥ pieces-IsFeed 17
      requests 7 opened (6, true) requests-fit opened-StandsAt (omega arith)
