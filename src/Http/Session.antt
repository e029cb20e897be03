-- ===== src/Http/Session.antt =====
-- src/streamlike/http.c: opening, creating, closing and destroying an HTTP stream, with what they
-- acquire and release. The allocator and cURL are parameters: `Outcomes` is what their calls return.
pub mod Release
use libstreamlike.Common.{
  ℕ, ◌+◌, ◌-◌, ◌==◌, Bool, true, false, if◌then◌else◌, ℤ, Option, none, some,
}
use libstreamlike.Http.{Http, range_unknown, ready}

-- What `malloc(sizeof(sl_http_t))`, with whatever the block holds, `curl_easy_init` and
-- `curl_multi_init` return
pub record Outcomes : Type 0 where
  pub http : Option Http
  pub easy_ok : Bool
  pub multi_ok : Bool

-- How many blocks and handles of either kind of cURL are held
pub record Kept : Type 0 where
  pub blocks : ℕ
  pub easies : ℕ
  pub multis : ℕ

-- The fields that `sl_http_open` sets
abbrev pub fresh : Http → Http
fresh http = record http {
  http_off = ℤ.pos 0;
  http_len = ℤ.negsuc 0;
  http_status = ℤ.pos 0;
  http_range_allowed = range_unknown;
  curlbuf_off = 0;
  state = ready;
}

-- A stream as `sl_http_close` finds it: `context`, and whether its two handles are not NULL
pub record HttpStream : Type 0 where
  pub context : Option Http
  pub has_curl : Bool
  pub has_curlm : Bool

-- What `sl_http_open` and `sl_http_close` return: a code, the stream, and what is held
pub record Result : Type 0 where
  pub code : ℕ
  pub stream : Option HttpStream
  pub kept : Kept

-- `sl_http_open(stream, uri)`; the stream is none where it is NULL.
unfoldable pub sl_http_open : Outcomes → Option HttpStream → Kept → Result
sl_http_open o none k = record { code = 2; stream = none; kept = k }
sl_http_open o (some stream) k = elim o.http [
  | none ↦ record { code = 2; stream = some stream; kept = k }
  | some http ↦
      let k1 = record k { blocks = k.blocks + 1 } in
      if o.easy_ok
      then (let k2 = record k1 { easies = k1.easies + 1 } in
          if o.multi_ok
          then (record {
            code = 0;
            stream =
                some (record { context = some (fresh http); has_curl = true; has_curlm = true });
            kept = record k2 { multis = k2.multis + 1 };
          })
          else (record {
            code = 2;
            stream = some stream;
            kept = record k2 { easies = k2.easies - 1; blocks = k2.blocks - 1 };
          }))
      else (record { code = 2; stream = some stream; kept = record k1 { blocks = k1.blocks - 1 } })
]

-- `sl_http_create(uri)`, on what its own `malloc` and `sl_http_open` return
unfoldable pub sl_http_create : Option HttpStream → Outcomes → Kept → Option HttpStream × Kept
unfolding sl_http_open
sl_http_create none o k = (none, k)
sl_http_create (some raw) o k =
    let r = sl_http_open o (some raw) (record k { blocks = k.blocks + 1 }) in
    if r.code == 0 then (r.stream, r.kept) else (none, record r.kept { blocks = r.kept.blocks - 1 })

-- `sl_http_close` on a stream whose `context` is not NULL
abbrev pub close_open : HttpStream → Kept → ℕ × Kept
close_open s k =
    if s.has_curl
    then (if s.has_curlm
        then (0, record { blocks = k.blocks - 1; easies = k.easies - 1; multis = k.multis - 1 })
        else (2, k))
    else (2, k)

unfoldable pub sl_http_close : Option HttpStream → Kept → ℕ × Kept
sl_http_close none k = (2, k)
sl_http_close (some s) k = elim s.context [ none ↦ (2, k) | some http ↦ close_open s k ]

unfoldable pub sl_http_destroy : Option HttpStream → Kept → ℕ × Kept
unfolding sl_http_close
sl_http_destroy s k =
    let r = sl_http_close s k in if r.0 == 0 then (0, record r.1 { blocks = r.1.blocks - 1 }) else r
