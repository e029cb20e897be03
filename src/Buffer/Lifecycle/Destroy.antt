-- ===== src/Buffer/Lifecycle/Destroy.antt =====
-- What `sl_buffer_destroy` leaves of what `sl_buffer_create2` acquired.
use libstreamlike.Common.{
  ℕ, ◌<◌, ◌-◌, ◌≡◌, ◌&&◌, ◌≢◌, ◌⊎◌, ap, refl, subst, arith, Bool, true, false, inl, inr, ◌==◌, not,
  if-both, if◌then◌else◌, Option, none, some, ℤ, size_mod,
}
use libstreamlike.Circbuf.Lifecycle as Ring
use libstreamlike.Circbuf.Lifecycle.Release.{IsAllocator}
use libstreamlike.Buffer.{Buffer}
use libstreamlike.Buffer.Lifecycle.{
  Held, nothing_held, no_part, full_part, Outcomes, Codes, create2, destroy, threaded_fill_buffer,
}
use libstreamlike.Buffer.Lifecycle.Create.{all_held, IsAccounted, create2-IsAccounted}

-- The lock and the condition that nothing points to
abbrev pub eof_held : Held
eof_held = record nothing_held { eof_lock = full_part; eof_cond = full_part }

-- What destruction comes to where `filling` says that a filler's thread was started
abbrev pub destroyed : Codes → Bool → ℤ × Held
destroyed o filling =
    if filling && not (o.join == 0)
    then (ℤ.negsuc 0, record all_held { filler = true })
    else if not (o.lock == 0)
    then (ℤ.negsuc 0, record all_held { cbuf = Ring.nothing_held })
    else if not (o.cond == 0)
    then (ℤ.negsuc 0, record all_held { cbuf = Ring.nothing_held; seek_lock = no_part })
    else (ℤ.pos 0, eof_held)

destroy-all :
    (o : Codes) (b : Buffer) (filling : Bool)
    → b.has_filler ≡ filling
    → destroy o (some (some b)) (record all_held { filler = filling }) ≡ destroyed o filling
unfolding destroy Ring.destroy
destroy-all o b true e = simp e refl
destroy-all o b false e = simp e refl

-- What `sl_buffer_threaded_fill_buffer` comes to on a stream in its first state
abbrev pub IsStarted : Bool → ℕ → Buffer → Option (ℤ × Option (Option Buffer) × Held) → Type 0
IsStarted ok code b none = ok ≡ false
IsStarted ok code b (some (n, s, h)) =
    (ok ≡ true)
    × (((n ≡ ℤ.negsuc 4) × (code ≢ 0) × (s ≡ some (some b)) × (h ≡ all_held))
        ⊎ ((n ≡ ℤ.pos 0)
            × (code ≡ 0)
            × (s ≡ some (some (record b { has_filler = true })))
            × (h ≡ record all_held { filler = true })))

pub threaded_fill_buffer-IsStarted :
    (ok : Bool) (code : ℕ) (b : Buffer)
    → b.has_filler ≡ false
    → IsStarted ok code b (threaded_fill_buffer ok code (some (some b)) all_held)
unfolding threaded_fill_buffer
threaded_fill_buffer-IsStarted ok code b e =
    if-both P b.has_filler (λ t. absurd (grind (arith, e, t)))
      (λ _.
        if-both P (not ok) (λ f. ground (arith, f))
          (λ g.
            if-both P (not (code == 0))
              (λ f. (ground (arith, g), inl (refl, ground (arith, f), refl, refl)))
              (λ f. (ground (arith, g), inr (refl, ground (arith, f), refl, refl)))))
  where
    P : Option (ℤ × Option (Option Buffer) × Held) → Type 0
    P = IsStarted ok code b

-- The life of a buffered stream that `sl_buffer_create2` returned
pub record IsReleased (b : Buffer) (h : Held) (ok : Bool) (code : ℕ) (o : Codes) : Type 0 where
  pub idle : destroy o (some (some b)) h ≡ destroyed o false
  pub started : IsStarted ok code b (threaded_fill_buffer ok code (some (some b)) h)
  pub filling :
      destroy o (some (some (record b { has_filler = true }))) (record h { filler = true })
      ≡ destroyed o true

-- With an allocator that keeps to its documentation and a size below `SIZE_MAX`, a stream that
-- `sl_buffer_create2` returns can be destroyed at once, or after `sl_buffer_threaded_fill_buffer`
-- returned 0. Where `malloc` returns NULL, and only there, the latter calls `pthread_create` with NULL;
-- else it returns -5 and changes nothing if `pthread_create` fails, and 0 with a filler if not.
-- Destruction stops with -1 at the first call that fails, and keeps what it has not yet released. If
-- none fails it returns 0, and all is released but one lock and one condition, which nothing points to.
pub create2-IsReleased :
    (c : Outcomes) (has_inner : Bool) (n step_size : ℕ) (b : Buffer) (h : Held) (ok : Bool)
    (code : ℕ) (o : Codes)
    → IsAllocator c.cbuf.alloc
    → n < size_mod - 1
    → create2 c has_inner n step_size ≡ some (some b, h)
    → IsReleased b h ok code o
create2-IsReleased c has_inner n step_size b h ok code o law small e =
    let a =
      subst (IsAccounted c n step_size) e (create2-IsAccounted c n step_size has_inner law small) in
    let f : b.has_filler ≡ false = ap (λ x. x.has_filler) a.2 in
    rw a.1 (record {
      idle = destroy-all o b false f;
      started = threaded_fill_buffer-IsStarted ok code b f;
      filling = destroy-all o (record b { has_filler = true }) true refl;
    })
