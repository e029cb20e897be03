-- ===== src/Http/Seek/Tests.antt =====
-- A cURL whose peer sends nothing more, and a seek while its transfer runs.
use libstreamlike.Common.{
  if◌then◌else◌, false, Bool, ℕ, ◌+◌, ◌-◌, ◌≡◌, refl, true, ℤ, Option, some, ◌>>=◌, Ensures,
}
use libstreamlike.Memory.{Block}
use libstreamlike.Http.{Http, State, range_unknown, working, abort_requested, aborted}
use libstreamlike.Http.Body.{Handles, write_in}
use libstreamlike.Http.Transfer.{Performed, Curl}
use libstreamlike.Http.Seek.{conclude, conclude_abort, sl_cancel_transfer_, seek_cb}

abbrev handles : Handles (ℕ × Bool)
handles = record { remove_handle = λ n. n; add_handle = λ n. n }

abbrev ramp : ℕ → Block
ramp n = record { len = n; at = λ i. i + 10 }

-- It calls the body callback once it is asked to abort, and else waits for `n` rounds; the Boolean says
-- whether the transfer is paused, in which case it goes on for ever.
abbrev idle : State → Http → ℕ → Option (Performed (ℕ × Bool))
idle abort_requested h n = write_in handles abort_requested (ramp 3) 3 h (0, false) >>= λ r.
    some (record { http = r.http; world = (0, false); ok = true; count = 0 })
idle _ h n = some (record { http = h; world = (n - 1, false); ok = true; count = n })

abbrev silent : Curl (ℕ × Bool)
silent = record {
  wait = λ x. (x, true);
  perform = λ h x.
      if x.1
      then some (record { http = h; world = x; ok = true; count = 1 })
      else idle h.state h x.0;
  unpause = λ h x. some (h, (x.0, false));
}

abbrev Always : Http → ℕ × Bool → Type 0
Always h x = Unit

abbrev running : Http
running = record {
  http_off = ℤ.pos 7;
  http_len = ℤ.negsuc 0;
  http_status = ℤ.pos 200;
  http_range_allowed = range_unknown;
  curlbuf_off = 0;
  outbuf_off = 2;
  outbuf_size = 4;
  outbuf = ramp 4;
  outbuf_base = 0;
  state = working;
}

-- The stream is left aborted.
seek_cb-running :
    Ensures
      (λ r. (r.0.state ≡ aborted) × (r.0.http_off ≡ ℤ.pos 90))
      (seek_cb silent handles (λ x z. x) 6 running (4, false) (ℤ.pos 90) (ℤ.pos 0))
unfolding seek_cb sl_cancel_transfer_ conclude_abort conclude
seek_cb-running = (refl, refl)
