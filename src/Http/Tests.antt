-- ===== src/Http/Tests.antt =====
-- The callbacks of an HTTP stream on small inputs, and instances of their theorems.
use libstreamlike.Common.{
  true, false, ℕ, zero, suc, ◌+◌, ◌≡◌, ◌*◌, ◌%◌, refl, arith, List, [], ◌∷◌, none, some, Ensures, ℤ,
  size_mod, add_size, sub_size,
}
use libstreamlike.Memory.{Block, memcpy}
use libstreamlike.Http.{Http, range_unknown, range_yes, working, abort_requested, aborted}
use libstreamlike.Http.Body.{Handles, took, stop, write_cb_, copy_body}
use libstreamlike.Http.Body.Deliver.{Request, Delivery, deliver, IsDelivered, deliver-IsDelivered}
use libstreamlike.Http.Session.{Kept, HttpStream, sl_http_close, sl_http_create}
use libstreamlike.Http.Session.Release.{IsCreated, sl_http_create-IsCreated}
use libstreamlike.Http.Header.{
  Scanner, is_space, memtrim, header_cb_, set_len, set_range, header_type, memcasestartswith,
  content_range,
}
use libstreamlike.Http.Header.Trim.{IsTrimmed, memtrim-IsTrimmed}
use libstreamlike.Http.Header.Settled.{IsParsed, header_cb_-IsParsed}

-- Handles that count how often they are put back
abbrev counting : Handles ℕ
counting = record { remove_handle = λ n. n; add_handle = λ n. n + 1 }

abbrev ramp : ℕ → Block
ramp n = record { len = n; at = λ i. i + 10 }

-- A stream whose read asks for two bytes
abbrev opened : Http
opened = record {
  http_off = ℤ.pos 7;
  http_len = ℤ.negsuc 0;
  http_status = ℤ.pos 200;
  http_range_allowed = range_unknown;
  curlbuf_off = 0;
  outbuf_off = 0;
  outbuf_size = 2;
  outbuf = ramp 4;
  outbuf_base = 1;
  state = working;
}

abbrev request : ℕ → Request
request n = record { buffer = ramp 9; base = 2; len = n }

-- Five bytes over reads of 2, 1 and 6
deliver-opened :
    Ensures
      (λ d.
        (d.got ≡ 10 ∷ 11 ∷ 12 ∷ 13 ∷ 14 ∷ [])
        × (d.verdict ≡ took 5)
        × (d.http.curlbuf_off ≡ 0)
        × (d.http.http_off ≡ ℤ.pos 12))
      (deliver counting (ramp 5) 5 (request 1 ∷ request 6 ∷ []) opened 0)
unfolding deliver write_cb_ copy_body memcpy add_size sub_size
deliver-opened = (refl, refl, refl, refl)

-- A request to abort ends the transfer.
write_cb_-aborts :
    Ensures
      (λ r. (r.verdict ≡ stop) × (r.http.state ≡ aborted) × (r.world ≡ 1))
      (write_cb_ counting (ramp 5) 5 (record opened { state = abort_requested }) 0)
unfolding write_cb_ copy_body
write_cb_-aborts = (refl, refl, refl)

deliver-IsDelivered_example :
    (d : Delivery ℕ) × (deliver counting (ramp 5) 5 (request 1 ∷ request 6 ∷ []) opened 0 ≡ some d)
    × IsDelivered (ramp 5) 5 (request 1 ∷ request 6 ∷ []) opened 0 d
deliver-IsDelivered_example =
    deliver-IsDelivered (ramp 5) 5 counting (request 1 ∷ request 6 ∷ []) opened 0 (omega arith)
      (λ p. absurd (grind (arith, p))) (omega arith, omega arith, (omega arith, omega arith, tt))

-- The bytes of a list, as a block
abbrev byte_at : List ℕ → ℕ → ℕ
byte_at [] i = 0
byte_at (c ∷ cs) zero = c
byte_at (c ∷ cs) (suc i) = byte_at cs i

-- "Accept-Ranges: bytes\r\n"
abbrev line : Block
line = record {
  len = 22;
  at = byte_at (
      65 ∷ 99 ∷ 99 ∷ 101 ∷ 112 ∷ 116 ∷ 45 ∷ 82 ∷ 97 ∷ 110 ∷ 103 ∷ 101 ∷ 115 ∷ 58 ∷ 32 ∷ 98 ∷ 121
      ∷ 116 ∷ 101 ∷ 115 ∷ 13 ∷ 10 ∷ []);
}

-- A scanner that finds no status line
abbrev no_status : Scanner
no_status = record { scan_status = λ b p. none; strtoull = λ b p. 0 }

memtrim-line : ((memtrim line 14 8).begin ≡ 15) × ((memtrim line 14 8).end ≡ 20)
unfolding memtrim is_space
memtrim-line = (refl, refl)

memtrim-IsTrimmed_example : IsTrimmed line 14 8 (memtrim line 14 8)
memtrim-IsTrimmed_example = memtrim-IsTrimmed line 14 8

header_cb_-line :
    (header_cb_ no_status line 22 1 (record opened { http_off = ℤ.pos 0 })).0.http_range_allowed
    ≡ range_yes
unfolding header_cb_ memtrim is_space set_len set_range header_type memcasestartswith
header_cb_-line = refl

header_cb_-IsParsed_example :
    IsParsed no_status line ((1 * 22) % size_mod) opened (header_cb_ no_status line 22 1 opened)
header_cb_-IsParsed_example = header_cb_-IsParsed no_status line 22 1 opened

-- The key "Content-Range-Foo" counts as "Content-Range".
abbrev foo : Block
foo = record {
  len = 17;
  at = byte_at (
      67 ∷ 111 ∷ 110 ∷ 116 ∷ 101 ∷ 110 ∷ 116 ∷ 45 ∷ 82 ∷ 97 ∷ 110 ∷ 103 ∷ 101 ∷ 45 ∷ 70 ∷ 111 ∷ 111
      ∷ []);
}

header_type-prefix : header_type foo 0 17 ≡ content_range
unfolding header_type memcasestartswith
header_type-prefix = refl

abbrev nothing : Kept
nothing = record { blocks = 0; easies = 0; multis = 0 }

-- A stream that `malloc` has just handed out
abbrev raw : HttpStream
raw = record { context = none; has_curl = false; has_curlm = false }

-- Closing it returns 2.
sl_http_close-raw : sl_http_close (some raw) nothing ≡ (2, nothing)
unfolding sl_http_close
sl_http_close-raw = refl

sl_http_create-IsCreated_example : IsCreated nothing (
    sl_http_create
      (some raw)
      (record { http = some opened; easy_ok = true; multi_ok = true })
      nothing)
sl_http_create-IsCreated_example =
    sl_http_create-IsCreated (some raw)
      (record { http = some opened; easy_ok = true; multi_ok = true }) nothing
