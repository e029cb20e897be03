-- ===== src/Http/Seek/Lands.antt =====
-- That a seek returns, and where it lands.
use libstreamlike.Common.{ℕ, ◌≤◌, ◌<◌, ◌≡◌, ◌≢◌, Bool, false, Option, some}
use libstreamlike.Http.{Http, abort_requested}
use libstreamlike.Http.Transfer.{Performed, Curl}

-- What cancelling relies on: under `Ready`, the callbacks do not fault; the callback that is asked to
-- abort returns -1, so that a transfer that is unpaused then is not paused again; and a transfer that is asked to abort and is not paused ends: each round that leaves it running
-- leaves fewer rounds. Nothing is said of how a paused transfer goes on.
pub record IsEnding {W : Type 0} (curl : Curl W) (is_paused : W → Bool) (Ready : Http → W → Type 0)
    (left : W → ℕ) : Type 0 where
  pub performs :
      (h : Http) (w : W)
      → Ready h w
      → is_paused w ≡ false
      → (p : Performed W) × (curl.perform h (curl.wait w).0 ≡ some p)
        × Ready p.http p.world
        × (is_paused p.world ≡ false)
        × (p.count ≢ 0 → left p.world < left w)
  pub unpauses :
      (h : Http) (w : W)
      → Ready h w
      → h.state ≡ abort_requested
      → (r : Http × W) × (curl.unpause h w ≡ some r)
        × Ready r.0 r.1
        × (is_paused r.1 ≡ false)
        × (left r.1 ≤ left w)
  pub requests : (h : Http) (w : W) → Ready h w → Ready (record h { state = abort_requested }) w

module _ {W : Type 0} (curl : Curl W) (is_paused : W → Bool) (Ready : Http → W → Type 0)
    (left : W → ℕ) (c : IsEnding curl is_paused Ready left) where
  abbrev Returns : Option (Http × W) → Type 0
  Returns o = (r : Http × W) × (o ≡ some r)
