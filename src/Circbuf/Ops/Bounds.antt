-- ===== src/Circbuf/Ops/Bounds.antt =====
-- The offsets of a circular buffer, past any program of calls.
use libstreamlike.Common.{
  ℕ, ◌+◌, ◌-◌, ◌≤◌, ◌<◌, ◌≡◌, ◌∙◌, refl, sym, ap, subst, arith, List, [], ◌∷◌, some, Ensures,
  Ensures-map, size_mod,
}
use libstreamlike.Circbuf.{Circbuf, get_length, get_size}
use libstreamlike.Circbuf.Length.{get_length-contents}
use libstreamlike.Circbuf.Lifecycle.{Outcomes, Held, init}
use libstreamlike.Circbuf.Lifecycle.Release.{IsAllocator, IsFresh, IsComplete, init-IsComplete}
use libstreamlike.Circbuf.Ops.{
  Op, writes, reads, disposes, asks_length, resets, closes_read, closes_write, Out, exec_all, Queue,
  spec, spec_all, AllFit,
}
use libstreamlike.Circbuf.Ops.Refine.{queue_of, IsRun, exec_all-IsRun}

-- No call changes how much a queue can hold.
spec-cap : (o : Op) (q : Queue) → (spec o q).1.cap ≡ q.cap
unfolding spec
spec-cap (writes buf base len) q = refl
spec-cap (reads buf base len) q = refl
spec-cap (disposes len) q = refl
spec-cap asks_length q = refl
spec-cap resets q = refl
spec-cap closes_read q = refl
spec-cap closes_write q = refl

spec_all-cap : (os : List Op) (q : Queue) → (spec_all os q).1.cap ≡ q.cap
unfolding spec_all
spec_all-cap [] q = refl
spec_all-cap (o ∷ os) q = spec_all-cap os (spec o q).1 ∙ spec-cap o q

-- The bounds of a buffer for `n` bytes
pub record IsBounded (n : ℕ) (c : Circbuf) : Type 0 where
  pub size_eq : get_size c ≡ n + 1
  pub block : c.mem.len ≡ n + 1
  pub length_le : get_length c ≤ n
  pub woff_le : c.woff ≤ n
  pub roff_le : c.roff ≤ n + 1
  pub no_wrap : (c.roff + c.size < size_mod) × (c.woff + c.size < size_mod)

run-IsBounded :
    (n : ℕ) (os : List Op) (c : Circbuf)
    → get_size c ≡ n + 1
    → (r : List Out × Circbuf) → IsRun os c r
    → IsBounded n r.1
unfolding get_size
run-IsBounded n os c e r (s, p) =
    let cap : r.1.size - 1 ≡ n =
      sym (ap (λ x. x.1.cap) p) ∙ spec_all-cap os (queue_of c) ∙ omega arith in
    let size_eq : r.1.size ≡ n + 1 = omega (arith, cap, s.valid) in
    record {
      size_eq = size_eq;
      block = s.whole ∙ size_eq;
      length_le = omega (arith, get_length-contents r.1 s, size_eq);
      woff_le = omega (arith, s.valid, size_eq);
      roff_le = omega (arith, s.valid, size_eq);
      no_wrap = omega (arith, s.valid);
    }

-- From a buffer that `circbuf_init` made for `n` bytes, below `SIZE_MAX`, with an allocator that keeps to
-- its documentation, any program of calls that do not block, each on a block of the caller that has
-- room, returns. Behind it the block and the size are those for `n + 1` bytes, at most `n` bytes are
-- queued, `woff` is an index of the block and `roff` is one or the size, and no sum of an offset and a
-- length up to the size wraps.
pub exec_all-IsBounded :
    (o : Outcomes) (n : ℕ) (c : Circbuf) (h : Held)
    → IsAllocator o.alloc
    → n < size_mod - 1
    → init o n ≡ (some c, h)
    → (os : List Op) → AllFit os
    → Ensures (λ r. IsBounded n r.1) (exec_all os c)
exec_all-IsBounded o n c h law small e os f =
    let fresh : IsFresh n c = (subst (IsComplete n) e (init-IsComplete o n law small)).0 in
    Ensures-map (IsRun os c) (λ r. IsBounded n r.1) (run-IsBounded n os c fresh.size_eq)
      (exec_all os c) (exec_all-IsRun os c fresh.sound f)
