-- ===== src/Http/Seek.antt =====
-- src/streamlike/http.c: `sl_http_seek_cb`, which cancels the transfer and asks for another range.
mod Lands
mod Reads
mod Tests
use libstreamlike.Common.{
  ℕ, zero, suc, Bool, true, false, not, ◌&&◌, leb, ltb, ◌==◌, if◌then◌else◌, ℤ, ltb_ℤ, eq_ℤ, Option,
  none, some, ◌>>=◌,
}
use libstreamlike.Http.{Http, State, ready, working, paused, abort_requested, aborted}
use libstreamlike.Http.Body.{Handles}
use libstreamlike.Http.Transfer.{Performed, Curl}

-- `http->state != SL_HTTP_ABORTED`
abbrev pub is_aborted : State → Bool
is_aborted aborted = true
is_aborted _ = false

-- The loop of `sl_cancel_transfer_`, with `fuel` for the number of its rounds. `none` is a fault, or a
-- lack of fuel.
unfoldable pub conclude : {W : Type 0} → Curl W → ℕ → Http → W → Option (Http × W)
conclude curl zero http w = none
conclude curl (suc fuel) http w = curl.perform http (curl.wait w).0 >>= λ p.
    if p.ok && not (p.count == 0) then conclude curl fuel p.http p.world else some (p.http, p.world)

-- The part behind the request to abort
unfoldable pub conclude_abort : {W : Type 0} → Curl W → ℕ → Http → W → Option (Http × W)
unfolding conclude
conclude_abort curl fuel http w =
    (if is_aborted http.state then some (http, w) else conclude curl fuel http w) >>= λ r.
    some (record r.0 { curlbuf_off = 0 }, r.1)

-- `sl_cancel_transfer_`, with the state given
abbrev pub cancel_in : {W : Type 0} → Curl W → ℕ → State → Http → W → Option (Http × W)
cancel_in curl fuel ready http w = some (record http { curlbuf_off = 0 }, w)
cancel_in curl fuel paused http w =
    curl.unpause (record http { state = abort_requested }) w >>= λ r.
    conclude_abort curl fuel r.0 r.1
cancel_in curl fuel _ http w = conclude_abort curl fuel (record http { state = abort_requested }) w

unfoldable pub sl_cancel_transfer_ : {W : Type 0} → Curl W → ℕ → Http → W → Option (Http × W)
unfolding conclude_abort
sl_cancel_transfer_ curl fuel http w = cancel_in curl fuel http.state http w

-- `sl_http_seek_cb`. `set_range w offset` is `curl_easy_setopt` with `CURLOPT_RANGE` and the text of
-- `offset` followed by a dash.
unfoldable pub seek_cb :
    {W : Type 0} → Curl W → Handles W → (W → ℤ → W) → ℕ → Http → W → ℤ → ℤ → Option (Http × W × ℤ)
unfolding sl_cancel_transfer_
seek_cb curl handles set_range fuel http w offset whence =
    if ltb_ℤ offset (ℤ.pos 0) && eq_ℤ whence 0
    then some (http, w, ℤ.negsuc 0)
    else (sl_cancel_transfer_ curl fuel http w >>= λ r. some (
      record r.0 { http_off = offset; curlbuf_off = 0 },
      handles.add_handle (handles.remove_handle (set_range r.1 offset)),
      ℤ.pos 0,
    ))
