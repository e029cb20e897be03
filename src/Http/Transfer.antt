-- ===== src/Http/Transfer.antt =====
-- src/streamlike/http.c: `sl_http_read_cb`, which lets cURL work until the read has what it asks for.
pub mod Account
pub mod Feed
pub mod Loop
pub mod Order
pub mod Reads
mod Tests
use libstreamlike.Common.{
  ℕ, zero, suc, ◌≤◌, ◌<◌, ◌≡◌, Bool, true, false, not, ◌&&◌, ltb, ◌==◌, if◌then◌else◌, Option, none,
  some, ◌>>=◌, size_mod,
}
use libstreamlike.Memory.{Block}
use libstreamlike.Http.{Http, State, ready, working, paused, abort_requested, aborted}
use libstreamlike.Http.Body.{Handles, Written, write_cb_}
use libstreamlike.Http.Body.Deliver.{Request, open_read, is_pause}
use libstreamlike.Http.Header.{Scanner, header_cb_}

-- What a call of `curl_multi_perform` leaves: the stream and what cURL keeps, whether it returned
-- `CURLM_OK`, and `count`
pub record Performed (W : Type 0) : Type 0 where
  pub http : Http
  pub world : W
  pub ok : Bool
  pub count : ℕ

-- What a read uses of cURL. `wait` is `curl_multi_wait`, and says whether it returned `CURLM_OK`;
-- `unpause` is `curl_easy_pause` with `CURLPAUSE_CONT`. Both `perform` and `unpause` may call the
-- callbacks, and fault where these do.
pub record Curl (W : Type 0) : Type 0 where
  pub wait : W → W × Bool
  pub perform : Http → W → Option (Performed W)
  pub unpause : Http → W → Option (Http × W)

-- `if (http->state == SL_HTTP_READY)` …, with the state given
abbrev pub start_working : State → Http → Http
start_working ready http = record http { state = working }
start_working _ http = http

-- `if (!count)` …
abbrev pub finish : ℕ → Http → Http
finish count http = if count == 0 then record http { state = ready } else http

-- `if (http->state == SL_HTTP_PAUSED)` …, with the state given
abbrev pub resume : {W : Type 0} → Curl W → State → Http → W → Option (Http × W)
resume curl paused http w = curl.unpause http w
resume curl _ http w = some (http, w)

-- The loop, with `fuel` for the number of its rounds. `none` is a fault, or a lack of fuel.
unfoldable pub read_loop : {W : Type 0} → Curl W → ℕ → Http → W → Option (Http × W × ℕ)
read_loop curl zero http w = none
read_loop curl (suc fuel) http w =
    let waited = curl.wait w in
    if ltb http.outbuf_off http.outbuf_size
    then (if waited.1
        then (curl.perform http waited.0 >>= λ p.
            if p.ok && not (p.count == 0)
            then read_loop curl fuel (start_working p.http.state p.http) p.world
            else some (finish p.count p.http, p.world, p.http.outbuf_off))
        else some (http, waited.0, http.outbuf_off))
    else some (http, w, http.outbuf_off)

-- `sl_http_read_cb`: the stream, what cURL keeps, and the number of bytes read
unfoldable pub read_cb : {W : Type 0} → Curl W → ℕ → Request → Http → W → Option (Http × W × ℕ)
unfolding read_loop
read_cb curl fuel q http w =
    let h = open_read q http in resume curl h.state h w >>= λ r. read_loop curl fuel r.0 r.1

-- From the first stream to the second, cURL calls the two callbacks in some order, the body's on pieces
-- that are as long as it says, and that begin before `curlbuf_off`. The Boolean beside a stream says
-- whether the transfer is paused, as it is once the body's callback returns `CURL_WRITEFUNC_PAUSE`; a
-- paused transfer hands over no piece.
pub data Calls (W : Type 0) : Http → Bool → Http → Bool → Type 0 where
  quiet : (h : Http) (b : Bool) → Calls W h b h b
  body :
      (curl : Handles W) (curlbuf : Block) (size : ℕ) (h h' : Http) (b : Bool) (v : W)
      (r : Written W)
      → (h.curlbuf_off ≤ size) × (size ≤ curlbuf.len) × (size < size_mod)
      → write_cb_ curl curlbuf size h v ≡ some r
      → Calls W r.http (is_pause r.verdict) h' b
      → Calls W h false h' b
  header :
      (c : Scanner) (line : Block) (nitems size : ℕ) (h h' : Http) (b b' : Bool)
      → Calls W (header_cb_ c line nitems size h).0 b h' b'
      → Calls W h b h' b'
