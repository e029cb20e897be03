-- ===== src/Http/Library.antt =====
-- src/streamlike/http.c: `sl_http_library_init` and `sl_http_library_cleanup`, as programs of threads that
-- share `curl_global_init_mutex` and `curl_global_init_done`.
pub mod Once
mod Tests
use libstreamlike.Common.{
  ℕ, Bool, true, false, not, ◌==◌, if◌then◌else◌, Option, none, some, ◌>>=◌, List, [], ◌∷◌,
}

-- `sl_http_library_init` or `sl_http_library_cleanup`, and what each calls of cURL, `curl_global_init` or
-- `curl_global_cleanup`
pub data Op : Type 0 where
  inits cleans : Op

-- Where a thread stands: at none of the two functions; behind the lock, before the test; before the call
-- of cURL; before the assignment; before the unlock
pub data At : Type 0 where
  outside : At
  testing calling setting : Op → At
  unlocking : At

-- `owner` is the thread that holds the mutex, and `calls` are those of cURL, the last one first.
pub record Library : Type 0 where
  pub done : Bool
  pub owner : Option ℕ
  pub calls : List Op
  pub at : ℕ → At

abbrev pub fresh : Library
fresh = record { done = false; owner = none; calls = []; at = λ t. outside }

abbrev pub is_init : Op → Bool
is_init inits = true
is_init cleans = false

-- The test of `curl_global_init_done`
abbrev pub is_needed : Op → Bool → Bool
is_needed inits done = not done
is_needed cleans done = done

abbrev pub move : ℕ → At → (ℕ → At) → ℕ → At
move t a at u = if u == t then a else at u

-- The next step of the thread `t`, where it stands and who holds the mutex being given; a thread that is
-- outside enters the function `o`, and waits where the mutex is held.
abbrev pub step_at : ℕ → Op → At → Option ℕ → Library → Library
step_at t o outside none s = record s { owner = some t; at = move t (testing o) s.at }
step_at t o outside (some u) s = s
step_at t _ (testing o) _ s = record s {
  at = move t (if is_needed o s.done then calling o else unlocking) s.at;
}
step_at t _ (calling o) _ s = record s { calls = o ∷ s.calls; at = move t (setting o) s.at }
step_at t _ (setting o) _ s = record s { done = is_init o; at = move t unlocking s.at }
step_at t _ unlocking _ s = record s { owner = none; at = move t outside s.at }

-- Which thread goes on, and with which function where it is outside
unfoldable pub run : List (ℕ × Op) → Library → Library
run [] s = s
run ((t, o) ∷ xs) s = run xs (step_at t o (s.at t) s.owner s)

-- Whether cURL is set up past the calls, the last one first; none where it was set up twice, or cleaned
-- up without having been set up.
abbrev pub follow : List Op → Option Bool
follow [] = some false
follow (o ∷ os) = follow os >>= λ on. if is_needed o on then some (is_init o) else none
