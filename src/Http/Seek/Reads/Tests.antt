-- ===== src/Http/Seek/Reads/Tests.antt =====
-- Seeks in a resource of fifteen bytes, and the reads behind them.
use libstreamlike.Common.{false, ◌≡◌, refl, inr, true, [], ◌∷◌, Ensures, ℤ, add_size, sub_size}
use libstreamlike.Memory.{memcpy}
use libstreamlike.Http.{Http, abort_requested, aborted}
use libstreamlike.Http.Body.{write_cb_, copy_body}
use libstreamlike.Http.Body.Deliver.{open_read}
use libstreamlike.Http.Transfer.{read_loop, read_cb}
use libstreamlike.Http.Transfer.Order.{read_all}
use libstreamlike.Http.Seek.{conclude, conclude_abort, sl_cancel_transfer_, seek_cb}
use libstreamlike.Http.Seek.Reads.{Refuses, seek_cb-Refuses}
use libstreamlike.Http.Samples.{Place, handles, piece_of, hand_over, pieces, opened, requests}

-- `CURLOPT_RANGE` with an offset that is not negative
abbrev from_range : Place → ℤ → Place
from_range w (ℤ.pos n) = (n, false)
from_range w (ℤ.negsuc n) = w

-- The twelve bytes that the requests ask for, from offset 3 on
seek_and_read :
    Ensures
      (λ r.
        (r.2 ≡ ℤ.pos 0)
        × Ensures
            (λ t. t.0 ≡ 13 ∷ 14 ∷ 15 ∷ 16 ∷ 17 ∷ 18 ∷ 19 ∷ 20 ∷ 21 ∷ 22 ∷ 23 ∷ 24 ∷ [])
            (read_all pieces 17 requests r.0 r.1))
      (seek_cb pieces handles from_range 17 opened (6, true) (ℤ.pos 3) (ℤ.pos 0))
unfolding seek_cb sl_cancel_transfer_ conclude_abort conclude read_all read_cb read_loop hand_over
    write_cb_ copy_body memcpy add_size sub_size
seek_and_read = (refl, refl {a = 13 ∷ 14 ∷ 15 ∷ 16 ∷ 17 ∷ 18 ∷ 19 ∷ 20 ∷ 21 ∷ 22 ∷ 23 ∷ 24 ∷ []})

-- No body is left of the range that the stream was set to before.
abbrev at_end : Http
at_end = record opened { http_off = ℤ.pos 15; curlbuf_off = 0; state = aborted }

seek_cb-Refuses_example :
    Ensures
      (λ r.
        (r.2 ≡ ℤ.pos 0)
        × ((open_read (record { buffer = piece_of 0; base = 0; len = 3 }) r.0).outbuf_off ≡ 0)
        × Refuses pieces handles from_range
            (open_read (record { buffer = piece_of 0; base = 0; len = 3 }) r.0))
      (seek_cb pieces handles from_range 1 at_end (15, false) (ℤ.pos 4) (ℤ.pos 0))
unfolding hand_over
seek_cb-Refuses_example =
    seek_cb-Refuses pieces handles from_range 0 at_end (15, false) 4 (ℤ.pos 0)
      (record {
        http = record at_end { state = abort_requested };
        world = (15, false);
        ok = true;
        count = 0;
      })
      (inr refl) refl refl refl (record { buffer = piece_of 0; base = 0; len = 3 })
