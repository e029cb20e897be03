-- ===== src/Http/Header.antt =====
-- src/streamlike/http.c: `sl_http_header_cb_`, which cURL calls with each line of a response's header,
-- and the routines on text that it uses. An `outp` of the source is a block here, and a pointer into
-- the line is a place in it.
pub mod Trim
pub mod Settled
use libstreamlike.Common.{
  ℕ, zero, suc, ◌+◌, ◌-◌, ◌*◌, ◌%◌, ◌^◌, Bool, true, false, not, ◌&&◌, ◌||◌, leb, ltb, ◌==◌,
  if◌then◌else◌, ℤ, ltb_ℤ, eq_ℤ, List, [], ◌∷◌, Option, none, some, size_mod,
}
use libstreamlike.Memory.{Block, length}
use libstreamlike.Http.{Http, RangeAllowed, range_unknown, range_yes, range_no}

-- What the code takes from the C library to read a number. Both read on behind the end of the line
-- where the number does: `scan_status b p` is what `sscanf(p, "HTTP/%*3s %d ", &n)` stores into `n` when
-- it returns 1, and `strtoull b p` is `strtoull(p, NULL, 10)`.
pub record Scanner : Type 0 where
  pub scan_status : Block → ℕ → Option ℤ
  pub strtoull : Block → ℕ → ℕ

-- `isspace` of the C locale
unfoldable pub is_space : ℕ → Bool
is_space c = c == 32 || (leb 9 c && leb c 13)

-- The loop that moves `*end`: how many of the `n` bytes at `begin` stay
abbrev pub trim_end : Block → ℕ → ℕ → ℕ
trim_end b begin zero = 0
trim_end b begin (suc n) = if is_space (b.at (begin + n)) then trim_end b begin n else suc n

-- The loop that moves `*begin`: how many of the `n` bytes at `begin` go
abbrev pub trim_begin : Block → ℕ → ℕ → ℕ
trim_begin b begin zero = 0
trim_begin b begin (suc n) = if is_space (b.at begin) then suc (trim_begin b (begin + 1) n) else 0

-- `*begin`, `*end` and the result of `memtrim`
pub record Trimmed : Type 0 where
  pub begin : ℕ
  pub end : ℕ
  pub blank : Bool

unfoldable pub memtrim : Block → ℕ → ℕ → Trimmed
memtrim b mem size =
    let kept = trim_end b mem size in
    let begin = mem + trim_begin b mem kept in
    record { begin = begin; end = mem + kept; blank = mem + kept == begin }

-- `memchr`
abbrev pub memchr : Block → ℕ → ℕ → ℕ → Option ℕ
memchr b c p zero = none
memchr b c p (suc n) = if b.at p == c then some p else memchr b c (p + 1) n

-- `tolower` of the C locale
abbrev pub to_lower : ℕ → ℕ
to_lower c = if leb 65 c && leb c 90 then c + 32 else c

-- `!strncasecmp(b + p, s, strlen(s))` for a text without a 0
abbrev pub case_equal : Block → ℕ → List ℕ → Bool
case_equal b p [] = true
case_equal b p (c ∷ cs) = to_lower (b.at p) == to_lower c && case_equal b (p + 1) cs

unfoldable pub memcasestartswith : Block → ℕ → ℕ → List ℕ → Bool
memcasestartswith b p n s = leb (length s) n && case_equal b p s

-- "Content-Length"
abbrev pub cnt_len : List ℕ
cnt_len = 67 ∷ 111 ∷ 110 ∷ 116 ∷ 101 ∷ 110 ∷ 116 ∷ 45 ∷ 76 ∷ 101 ∷ 110 ∷ 103 ∷ 116 ∷ 104 ∷ []

-- "Content-Range"
abbrev pub cnt_rng : List ℕ
cnt_rng = 67 ∷ 111 ∷ 110 ∷ 116 ∷ 101 ∷ 110 ∷ 116 ∷ 45 ∷ 82 ∷ 97 ∷ 110 ∷ 103 ∷ 101 ∷ []

-- "Accept-Ranges"
abbrev pub act_rng : List ℕ
act_rng = 65 ∷ 99 ∷ 99 ∷ 101 ∷ 112 ∷ 116 ∷ 45 ∷ 82 ∷ 97 ∷ 110 ∷ 103 ∷ 101 ∷ 115 ∷ []

-- "bytes"
abbrev pub bytes_unit : List ℕ
bytes_unit = 98 ∷ 121 ∷ 116 ∷ 101 ∷ 115 ∷ []

-- `header_type`
pub data HeaderType : Type 0 where
  content_length content_range accept_ranges other : HeaderType

unfoldable pub header_type : Block → ℕ → ℕ → HeaderType
header_type b line key_len =
    if memcasestartswith b line key_len cnt_rng
    then content_range
    else if memcasestartswith b line key_len cnt_len
    then content_length
    else if memcasestartswith b line key_len act_rng
    then accept_ranges
    else other

abbrev pub is_content_range : HeaderType → Bool
is_content_range content_range = true
is_content_range _ = false

abbrev pub is_content_length : HeaderType → Bool
is_content_length content_length = true
is_content_length _ = false

abbrev pub is_accept_ranges : HeaderType → Bool
is_accept_ranges accept_ranges = true
is_accept_ranges _ = false

abbrev pub is_unknown : RangeAllowed → Bool
is_unknown range_unknown = true
is_unknown _ = false

-- An `unsigned long long` stored into an `off_t`
abbrev pub to_off : ℕ → ℤ
to_off n = if ltb n (2 ^ 63) then ℤ.pos n else ℤ.negsuc (size_mod - 1 - n)

-- "Set if range support isn't known."
unfoldable pub set_range : Block → HeaderType → ℕ → ℕ → Http → Http
set_range b type value line_end http =
    if is_unknown http.http_range_allowed
    then (if is_content_range type
        then record http { http_range_allowed = range_yes }
        else if not (eq_ℤ http.http_off 0) && eq_ℤ http.http_status 200
        then record http { http_range_allowed = range_no }
        else if is_accept_ranges type
        then (if memcasestartswith b value (line_end - value) bytes_unit
            then record http { http_range_allowed = range_yes }
            else record http { http_range_allowed = range_no })
        else http)
    else http

-- What is done at the "/" of a Content-Range
abbrev pub set_total : Scanner → Block → ℕ → Option ℕ → Http → Http
set_total c b line_end none http = http
set_total c b line_end (some slash) http =
    if slash + 1 == line_end
    then http
    else record http { http_len = to_off (c.strtoull b (slash + 1)) }

-- "If length isn't known..."
unfoldable pub set_len : Scanner → Block → HeaderType → ℕ → ℕ → Http → Http
set_len c b type value line_end http =
    if ltb_ℤ http.http_len (ℤ.pos 0)
    then (if eq_ℤ http.http_status 206 && is_content_range type
        then set_total c b line_end (memchr b 47 value (line_end - value)) http
        else if eq_ℤ http.http_status 200 && is_content_length type
        then record http { http_len = to_off (c.strtoull b value) }
        else http)
    else http

-- "If there is a colon..."
abbrev pub at_colon : Scanner → Block → ℕ → ℕ → Option ℕ → Http → Http
at_colon c b line line_end none http = http
at_colon c b line line_end (some colon) http =
    if colon + 1 == line_end
    then http
    else if colon == line
    then http
    else (let v = memtrim b (colon + 1) (line_end - colon - 1) in
        let type = header_type b line (colon - line) in
        if v.blank
        then http
        else set_len c b type v.begin line_end (set_range b type v.begin line_end http))

-- What is done with the result of `sscanf`
abbrev pub at_status : Scanner → Block → ℕ → ℕ → ℕ → Option ℤ → Http → Http × ℕ
at_status c b size line line_end (some status) http =
    (record http { http_status = status }, if eq_ℤ status 416 then 0 else size)
at_status c b size line line_end none http =
    (at_colon c b line line_end (memchr b 58 line (line_end - line)) http, size)

-- `sl_http_header_cb_(curlbuf, nitems, curlbuf_size, http)`: the stream and the result
unfoldable pub header_cb_ : Scanner → Block → ℕ → ℕ → Http → Http × ℕ
unfolding memtrim set_len set_range header_type memcasestartswith
header_cb_ c curlbuf nitems curlbuf_size http =
    let size = (curlbuf_size * nitems) % size_mod in
    let line = memtrim curlbuf 0 size in
    if size == 0
    then (http, 0)
    else if line.blank
    then (http, size)
    else at_status c curlbuf size line.begin line.end (c.scan_status curlbuf line.begin) http
