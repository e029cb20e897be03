-- ===== src/Buffer/Lifecycle.antt =====
-- src/streamlike/buffer.c: `sl_buffer_create2` and `sl_buffer_destroy`, with what they acquire and
-- release. `none` is what the threads library leaves undefined: to destroy what was never initialised.
pub mod Create
pub mod Destroy
use libstreamlike.Common.{
  ℕ, ◌*◌, Bool, true, false, ◌==◌, not, if◌then◌else◌, Option, none, some, ◌>>=◌, ℤ,
}
use libstreamlike.Circbuf.{Circbuf}
use libstreamlike.Circbuf.Lifecycle as Ring
use libstreamlike.Buffer.{Buffer}

-- What is held of a lock or a condition variable: the block of memory for it, and whether it has been
-- initialised in there
pub record Part : Type 0 where
  pub block : Bool
  pub live : Bool

abbrev pub no_part : Part
no_part = record { block = false; live = false }

abbrev pub full_part : Part
full_part = record { block = true; live = true }

-- What `malloc` and the call that initialises return for one of them; a code other than 0 is a failure.
pub record Try : Type 0 where
  pub block_ok : Bool
  pub code : ℕ

pub record Held : Type 0 where
  pub context : Bool
  pub cbuf : Ring.Held
  pub stream : Bool
  pub eof_lock : Part
  pub eof_cond : Part
  pub seek_lock : Part
  pub seek_cond : Part
  pub filler : Bool

abbrev pub nothing_held : Held
nothing_held = record {
  context = false;
  cbuf = Ring.nothing_held;
  stream = false;
  eof_lock = no_part;
  eof_cond = no_part;
  seek_lock = no_part;
  seek_cond = no_part;
  filler = false;
}

-- What the calls return that `sl_buffer_create2` makes
pub record Outcomes : Type 0 where
  pub context_ok : Bool
  pub cbuf : Ring.Outcomes
  pub stream_ok : Bool
  pub eof_lock : Try
  pub eof_cond : Try
  pub seek_lock : Try
  pub seek_cond : Try

-- `lock = malloc(…); if (lock == NULL || pthread_mutex_init(lock, NULL) != 0)` …: what is held, and
-- whether all went well
abbrev pub acquire : Try → Part × Bool
acquire t =
    if t.block_ok
    then (if t.code == 0 then (full_part, true) else (record { block = true; live = false }, false))
    else (no_part, false)

-- `if (lock) { pthread_mutex_destroy(lock); free(lock); }`
abbrev pub release : Part → Option Part
release p = if p.block then (if p.live then some no_part else none) else some p

-- The label `fail`
unfoldable pub fail : Held → Option (Option Buffer × Held)
fail h = release h.eof_lock >>= λ el. release h.eof_cond >>= λ ec. release h.seek_lock >>= λ sl.
    release h.seek_cond >>= λ sc. some (
      none,
      record {
        context = false;
        cbuf = record h.cbuf { struct = false };
        stream = false;
        eof_lock = el;
        eof_cond = ec;
        seek_lock = sl;
        seek_cond = sc;
        filler = h.filler;
      },
    )

-- The fields of the context
abbrev pub fresh : Circbuf → ℕ → Buffer
fresh cbuf step_size = record {
  cbuf = cbuf;
  has_filler = false;
  filler_started = false;
  pos = ℤ.pos 0;
  step_size = step_size;
  eof = false;
  seek_requested = false;
  seek_off = ℤ.pos 0;
  seek_whence = ℤ.pos 0;
  seek_result = ℤ.pos 0;
}

-- `if (…) goto fail;` behind an attempt to acquire, where `set` stores what is held after it
abbrev pub attempt :
    Part × Bool
    → (Part → Held)
    → (Held → Option (Option Buffer × Held))
    → Option (Option Buffer × Held)
attempt r set next = if not r.1 then fail (set r.0) else next (set r.0)

-- The parts of `sl_buffer_create2` from each lock and condition variable on, on what is held
module _ (o : Outcomes) (cbuf : Circbuf) (step_size : ℕ) where
  abbrev pub create_seek_cond : Held → Option (Option Buffer × Held)
  create_seek_cond h =
      attempt (acquire o.seek_cond) (λ p. record h { seek_cond = p })
        (λ h'. some (some (fresh cbuf step_size), h'))

  abbrev pub create_seek_lock : Held → Option (Option Buffer × Held)
  create_seek_lock h =
      attempt (acquire o.seek_lock) (λ p. record h { seek_lock = p }) create_seek_cond

  abbrev pub create_eof_cond : Held → Option (Option Buffer × Held)
  create_eof_cond h = attempt (acquire o.eof_cond) (λ p. record h { eof_cond = p }) create_seek_lock

  abbrev pub create_eof_lock : Held → Option (Option Buffer × Held)
  create_eof_lock h = attempt (acquire o.eof_lock) (λ p. record h { eof_lock = p }) create_eof_cond

-- The part behind `circbuf_init`, on what that returned and holds
abbrev pub create_ring :
    Outcomes → ℕ → Held → Option Circbuf × Ring.Held → Option (Option Buffer × Held)
create_ring o step_size h (none, ring) = fail (record h { cbuf = ring })
create_ring o step_size h (some cbuf, ring) =
    if o.stream_ok
    then create_eof_lock o cbuf step_size (record h { cbuf = ring; stream = true })
    else fail (record h { cbuf = ring })

-- `sl_buffer_create2(inner_stream, buffer_size, step_size)`: the context behind the stream that it
-- returns, or NULL, and what is held
unfoldable pub create2 : Outcomes → Bool → ℕ → ℕ → Option (Option Buffer × Held)
create2 o has_inner buffer_size step_size =
    if not has_inner
    then some (none, nothing_held)
    else if buffer_size == 0
    then some (none, nothing_held)
    else if step_size == 0
    then some (none, nothing_held)
    else if o.context_ok
    then create_ring o step_size (record nothing_held { context = true })
        (Ring.init o.cbuf buffer_size)
    else fail nothing_held

-- `sl_buffer_create`
unfoldable pub create : Outcomes → Bool → Option (Option Buffer × Held)
unfolding create2
create o has_inner = create2 o has_inner (1024 * 1024 * 1024) (16 * 1024)

-- What `pthread_join` and the calls that destroy the lock and the condition return
pub record Codes : Type 0 where
  pub join : ℕ
  pub lock : ℕ
  pub cond : ℕ

-- `sl_buffer_destroy` from the seek condition on
abbrev pub destroy_cond : Codes → Held → ℤ × Held
destroy_cond o h =
    if h.seek_cond.block
    then (if not (o.cond == 0)
        then (ℤ.negsuc 0, h)
        else (ℤ.pos 0, record h { seek_cond = no_part; context = false; stream = false }))
    else (ℤ.pos 0, record h { context = false; stream = false })

-- From the seek lock on
abbrev pub destroy_lock : Codes → Held → ℤ × Held
destroy_lock o h =
    if h.seek_lock.block
    then (if not (o.lock == 0)
        then (ℤ.negsuc 0, h)
        else destroy_cond o (record h { seek_lock = no_part }))
    else destroy_cond o h

-- From the circular buffer on
abbrev pub destroy_ring : Codes → Held → ℤ × Held
destroy_ring o h =
    if h.cbuf.struct
    then destroy_lock o (record h { cbuf = Ring.destroy h.cbuf })
    else destroy_lock o h

-- `sl_buffer_destroy` on the context of a stream, either of which may be NULL. The filler's thread is
-- joined once reading is closed. A pointer in the context is NULL where nothing is held behind it.
unfoldable pub destroy : Codes → Option (Option Buffer) → Held → ℤ × Held
destroy o none h = (ℤ.pos 0, h)
destroy o (some none) h = (ℤ.pos 0, record h { stream = false })
destroy o (some (some b)) h =
    if b.has_filler
    then (if not (o.join == 0)
        then (ℤ.negsuc 0, h)
        else destroy_ring o (record h { filler = false }))
    else destroy_ring o h

-- `sl_buffer_threaded_fill_buffer`, on whether `malloc` returned a block and on what `pthread_create`
-- returned: the code, the context and what is held. `none` is a call of `pthread_create` with NULL.
unfoldable pub threaded_fill_buffer :
    Bool → ℕ → Option (Option Buffer) → Held → Option (ℤ × Option (Option Buffer) × Held)
threaded_fill_buffer block_ok code none h = some (ℤ.negsuc 0, none, h)
threaded_fill_buffer block_ok code (some none) h = some (ℤ.negsuc 1, some none, h)
threaded_fill_buffer block_ok code (some (some b)) h =
    if not h.cbuf.struct
    then some (ℤ.negsuc 2, some (some b), h)
    else if b.has_filler
    then some (ℤ.negsuc 3, some (some b), h)
    else if not block_ok
    then none
    else if not (code == 0)
    then some (ℤ.negsuc 4, some (some b), record h { filler = false })
    else some (ℤ.pos 0, some (some (record b { has_filler = true })), record h { filler = true })
