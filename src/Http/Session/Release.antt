-- ===== src/Http/Session/Release.antt =====
-- What creating and destroying an HTTP stream leaves held.
use libstreamlike.Common.{ℕ, ◌+◌, ◌≡◌, refl, ap, arith, Bool, true, false, ℤ, Option, none, some}
use libstreamlike.Stream.{not_supported}
use libstreamlike.Http.{Http, tell_cb, eof_cb, length_cb, seekable_cb}
use libstreamlike.Http.Session.{
  Outcomes, Kept, HttpStream, sl_http_open, sl_http_create, sl_http_close, sl_http_destroy, fresh,
}

-- `h` is the state of a stream at its start, whose length is not known.
pub record IsFresh (h : Http) : Type 0 where
  pub told : tell_cb h ≡ ℤ.pos 0
  pub no_length : length_cb h ≡ ℤ.negsuc 0
  pub not_at_end : eof_cb h ≡ false
  pub no_seeking : seekable_cb h ≡ not_supported

-- `r` is what `sl_http_create` leaves of `k`: NULL, and nothing held; or a stream in its first state,
-- whose destruction returns 0 and gives back all that was acquired.
abbrev pub IsCreated : Kept → Option HttpStream × Kept → Type 0
IsCreated k (none, k') = k' ≡ k
IsCreated k (some s, k') =
    ((h : Http) × (s.context ≡ some h) × IsFresh h)
    × (k' ≡ record { blocks = k.blocks + 2; easies = k.easies + 1; multis = k.multis + 1 })
    × (sl_http_destroy (some s) k' ≡ (0, k))

fresh-IsFresh : (h : Http) → IsFresh (fresh h)
unfolding tell_cb length_cb eof_cb seekable_cb
fresh-IsFresh h = record { told = refl; no_length = refl; not_at_end = refl; no_seeking = refl }

abbrev kept : ℕ → ℕ → ℕ → Kept
kept b e m = record { blocks = b; easies = e; multis = m }

kept-eq : (b e m b' e' m' : ℕ) → b ≡ b' → e ≡ e' → m ≡ m' → kept b e m ≡ kept b' e' m'
kept-eq b e m b' e' m' p q r = cc

sl_http_destroy-fresh :
    (http : Http) (k : Kept)
    → sl_http_destroy
        (some (record { context = some http; has_curl = true; has_curlm = true }))
        (kept (k.blocks + 1 + 1) (k.easies + 1) (k.multis + 1))
      ≡ (0, k)
unfolding sl_http_destroy sl_http_close
sl_http_destroy-fresh http k =
    ap (λ x. (0, x))
      (kept-eq _ _ _ k.blocks k.easies k.multis (omega arith) (omega arith) (omega arith))

sl_http_create-outcomes :
    (raw : HttpStream) (http : Option Http) (easy_ok multi_ok : Bool) (k : Kept)
    → IsCreated k (
        sl_http_create
          (some raw)
          (record { http = http; easy_ok = easy_ok; multi_ok = multi_ok })
          k)
unfolding sl_http_create sl_http_open
sl_http_create-outcomes raw none easy_ok multi_ok k = kept-eq _ _ _ _ _ _ (omega arith) refl refl
sl_http_create-outcomes raw (some http) false multi_ok k =
    kept-eq _ _ _ _ _ _ (omega arith) refl refl
sl_http_create-outcomes raw (some http) true false k =
    kept-eq _ _ _ _ _ _ (omega arith) (omega arith) refl
sl_http_create-outcomes raw (some http) true true k = (
  (_, refl, fresh-IsFresh http),
  kept-eq _ _ _ _ _ _ (omega arith) refl refl,
  sl_http_destroy-fresh (fresh http) k,
)

-- Whatever the allocator and cURL return, `sl_http_create` returns NULL and has given back all that it
-- acquired; or it returns a stream that holds two blocks and two handles, stands at offset 0, does
-- not know its length and is not at its end, and `sl_http_destroy` on it returns 0 and gives all
-- back.
pub sl_http_create-IsCreated :
    (raw : Option HttpStream) (o : Outcomes) (k : Kept) → IsCreated k (sl_http_create raw o k)
unfolding sl_http_create
sl_http_create-IsCreated none o k = refl
sl_http_create-IsCreated (some raw) o k = sl_http_create-outcomes raw o.http o.easy_ok o.multi_ok k
