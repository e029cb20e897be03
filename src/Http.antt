-- ===== src/Http.antt =====
-- src/streamlike/http.c: the state behind an HTTP stream and the callbacks that only look at it. The
-- children model the body and header callbacks and the transfer.
pub mod Body
pub mod Header
pub mod Library
pub mod Session
pub mod Transfer
pub mod Seek
mod Samples
mod Tests
use libstreamlike.Common.{
  ℕ, ◌+◌, ◌-◌, suc, ◌≡◌, refl, ◌==◌, Option, none, some, ◌>>=◌, Bool, true, false, ◌&&◌, not, leb,
  if◌then◌else◌, ℤ, ltb_ℤ,
}
use libstreamlike.Memory.{Block}
use libstreamlike.Stream.{Seekable, not_supported, supported}

-- `http_range_allowed`
pub data RangeAllowed : Type 0 where
  range_unknown range_yes range_no : RangeAllowed

-- `state`
pub data State : Type 0 where
  ready working paused abort_requested aborted : State

-- `struct sl_http_s`, less the two handles of cURL. `outbuf` is a place in a block; an `off_t` is an
-- integer, since no stream has 2 ^ 63 bytes.
pub record Http : Type 0 where
  pub http_off : ℤ
  pub http_len : ℤ
  pub http_status : ℤ
  pub http_range_allowed : RangeAllowed
  pub curlbuf_off : ℕ
  pub outbuf_off : ℕ
  pub outbuf_size : ℕ
  pub outbuf : Block
  pub outbuf_base : ℕ
  pub state : State

-- The numbers of the states, and the state of a number
abbrev pub code_of : State → ℤ
code_of ready = ℤ.pos 0
code_of working = ℤ.pos 1
code_of paused = ℤ.pos 2
code_of abort_requested = ℤ.pos 3
code_of aborted = ℤ.pos 4

abbrev pub state_of : ℤ → Option State
state_of (ℤ.pos n) =
    if n == 0
    then some ready
    else (if n == 1
        then some working
        else (if n == 2
            then some paused
            else (if n == 3
                then some abort_requested
                else (if n == 4 then some aborted else none))))
state_of (ℤ.negsuc n) = none

-- `sl_http_set_state_`; `none` is `abort()`. The children write its effect, which it has on every state.
unfoldable pub set_state_ : Http → ℤ → Option Http
set_state_ http code = state_of code >>= λ state. some (record http { state = state })

-- It sets any of the states.
set_state_-code :
    (http : Http) (st : State) → set_state_ http (code_of st) ≡ some (record http { state = st })
unfolding set_state_
set_state_-code http ready = refl
set_state_-code http working = refl
set_state_-code http paused = refl
set_state_-code http abort_requested = refl
set_state_-code http aborted = refl

unfoldable pub tell_cb : Http → ℤ
tell_cb http = http.http_off

unfoldable pub eof_cb : Http → Bool
eof_cb http = not (ltb_ℤ http.http_off http.http_len) && not (ltb_ℤ http.http_len (ℤ.pos 0))

unfoldable pub error_cb : Http → ℤ
error_cb http = ℤ.pos 0

unfoldable pub length_cb : Http → ℤ
length_cb http = http.http_len

-- The `switch` of `sl_http_seekable_cb`
abbrev pub seekable_of : RangeAllowed → Seekable
seekable_of range_yes = supported
seekable_of _ = not_supported

unfoldable pub seekable_cb : Http → Seekable
seekable_cb http = seekable_of http.http_range_allowed
