-- ===== src/Http/Body.antt =====
-- src/streamlike/http.c: `sl_http_write_cb_`, which cURL calls with a piece of the body.
pub mod Copy
pub mod Deliver
use libstreamlike.Common.{
  add_off, ℕ, ◌+◌, ltb, if◌then◌else◌, add_size, sub_size, Option, some, ◌>>=◌,
}
use libstreamlike.Memory.{Block, memcpy}
use libstreamlike.Http.{Http, State, ready, working, paused, abort_requested, aborted}

-- What cURL keeps, and what the library calls to put its handle back: `curl_multi_remove_handle` and
-- `curl_multi_add_handle`
pub record Handles (W : Type 0) : Type 0 where
  pub remove_handle : W → W
  pub add_handle : W → W

-- What the callback returns: -1, the number of bytes taken, or `CURL_WRITEFUNC_PAUSE`
pub data Verdict : Type 0 where
  stop : Verdict
  took : ℕ → Verdict
  pause : Verdict

pub record Written (W : Type 0) : Type 0 where
  pub http : Http
  pub world : W
  pub verdict : Verdict

-- The copy behind the test for an abort
unfoldable pub copy_body : {W : Type 0} → Block → ℕ → Http → W → Option (Written W)
copy_body curlbuf curlbuf_size http world =
    let outbuf_avail = sub_size http.outbuf_size http.outbuf_off in
    let curlbuf_avail = sub_size curlbuf_size http.curlbuf_off in
    let inp = http.outbuf_base + http.outbuf_off in
    let outp = http.curlbuf_off in
    if ltb curlbuf_avail outbuf_avail
    then (memcpy http.outbuf inp curlbuf outp curlbuf_avail >>= λ b. some (record {
      http = record http {
        outbuf = b;
        outbuf_off = add_size http.outbuf_off curlbuf_avail;
        curlbuf_off = 0;
        http_off = add_off http.http_off curlbuf_avail;
      };
      world = world;
      verdict = took curlbuf_size;
    }))
    else (memcpy http.outbuf inp curlbuf outp outbuf_avail >>= λ b. some (record {
      http = record http {
        outbuf = b;
        outbuf_off = add_size http.outbuf_off outbuf_avail;
        curlbuf_off = add_size http.curlbuf_off outbuf_avail;
        http_off = add_off http.http_off outbuf_avail;
        state = paused;
      };
      world = world;
      verdict = pause;
    }))

-- `sl_http_write_cb_(curlbuf, …, curlbuf_size, http)` on its state
abbrev pub write_in : {W : Type 0} → Handles W → State → Block → ℕ → Http → W → Option (Written W)
write_in curl abort_requested curlbuf curlbuf_size http world = some (record {
  http = record http { state = aborted };
  world = curl.add_handle (curl.remove_handle world);
  verdict = stop;
})
write_in curl _ curlbuf curlbuf_size http world = copy_body curlbuf curlbuf_size http world

unfoldable pub write_cb_ : {W : Type 0} → Handles W → Block → ℕ → Http → W → Option (Written W)
unfolding copy_body
write_cb_ curl curlbuf curlbuf_size http world =
    write_in curl http.state curlbuf curlbuf_size http world
