-- ===== src/Circbuf/Feed/Step.antt =====
-- One call of the callback of `write_some2_`: what it may do, and what it does to the queue.
use libstreamlike.Common.{
  ℕ, ◌+◌, ◌≤◌, ◌<◌, ◌≡◌, ◌∙◌, refl, sym, ap, arith, ◌⊎◌, inl, inr, Bool, true, false, Bool-cases,
  List, ◌++◌, Option, some, ltb, add_size-eq, mod-eq-wrap, leb,
}
use libstreamlike.Memory.{Block, bytes, bytes-append}
use libstreamlike.Circbuf.State.{used, place, IsValid}
use mathlib.Core.List.{append_assoc}
use libstreamlike.Circbuf.Feed.{Writer, Feeding, set_eof, write_step}

-- What a callback may do, where `given` is what it has handed over so far: it stores at most the
-- bytes asked for and returns their number, and leaves the rest of the block alone.
pub record IsWriter {C : Type 0} (writer : Writer C) (given : C → List ℕ) : Type 0 where
  pub at_most : (x : C) (mem : Block) (there n : ℕ) → (writer x mem there n).written ≤ n
  pub len_eq : (x : C) (mem : Block) (there n : ℕ) → (writer x mem there n).mem.len ≡ mem.len
  pub frame :
      (x : C) (mem : Block) (there n j : ℕ)
      → (j < there) ⊎ (there + n ≤ j)
      → (writer x mem there n).mem.at j ≡ mem.at j
  pub gives :
      (x : C) (mem : Block) (there n : ℕ)
      → given (writer x mem there n).context
        ≡ given x
          ++ bytes (λ i. (writer x mem there n).mem.at (there + i)) (writer x mem there n).written

module _ {size roff woff : ℕ} (n : ℕ) (v : IsValid size roff woff) (ends : woff + n ≤ size)
    (room : used size roff woff + n < size) where
  -- A byte of the queue does not stand in the `n` bytes from `woff` on.
  apart :
      (i : ℕ)
      → i < used size roff woff
      → (place size roff i < woff) ⊎ (woff + n ≤ place size roff i)
  apart i h = elim (Bool-cases (ltb (place size roff i) woff)) [
    | inl lt ↦ inl (ground arith)
    | inr ge ↦ inr (ground arith)
  ]

  -- Byte `i` from `woff` on stands `i` places behind the queue.
  place-behind : (i : ℕ) → i < n → woff + i ≡ place size roff (used size roff woff + i)
  place-behind i h = ground arith

module _ {C : Type 0} (given : C → List ℕ) (size roff : ℕ) (s0 : Feeding C) where
  -- The bytes at the end of the queue that `s` has and `s0` has not
  abbrev pub fresh : Feeding C → ℕ → List ℕ
  fresh s n = bytes (λ i. s.mem.at (place size roff (used size roff s0.woff + i))) n

  -- How `s` goes on from `s0`: the bytes queued at `s0` stay where they are, `s.total` bytes are
  -- queued behind them, and those are what the callback has given.
  pub record IsFed (s : Feeding C) : Type 0 where
    pub valid : IsValid size roff s.woff
    pub grown : used size roff s0.woff + s.total ≡ used size roff s.woff
    pub kept :
        (i : ℕ)
        → i < used size roff s0.woff
        → s.mem.at (place size roff i) ≡ s0.mem.at (place size roff i)
    pub gives : given s.context ≡ given s0.context ++ fresh s s.total
    pub len_eq : s.mem.len ≡ s0.mem.len

  eof-IsFed : (s : Feeding C) (b : Option Bool) → IsFed s → IsFed (record s { eof = b })
  eof-IsFed s b f = record {
    valid = f.valid;
    grown = f.grown;
    kept = f.kept;
    gives = f.gives;
    len_eq = f.len_eq;
  }

module _ {C : Type 0} (writer : Writer C) (given : C → List ℕ) (w : IsWriter writer given)
    (size roff : ℕ) (s0 : Feeding C) where
  -- What a call for `n` bytes at `s.woff` leaves. It is short if the callback was.
  pub record IsStep (n : ℕ) (s : Feeding C) (r : Feeding C × Bool) : Type 0 where
    pub fed : IsFed given size roff s0 r.0
    pub short : r.1 ≡ true → (r.0.total < s.total + n) × (r.0.eof ≡ set_eof s.eof)
    pub whole :
        r.1 ≡ false
        → (r.0.total ≡ s.total + n) × (r.0.eof ≡ s.eof) × (r.0.woff ≡ place size s.woff n)

  -- The state after a call that gave `k` bytes
  abbrev after : Feeding C → ℕ → ℕ → Feeding C
  after s n k = record s {
    context = (writer s.context s.mem s.woff n).context;
    mem = (writer s.context s.mem s.woff n).mem;
    woff = place size s.woff k;
    total = s.total + k;
  }

  module _ (n : ℕ) (s : Feeding C) (v0 : IsValid size roff s0.woff) (f : IsFed given size roff s0 s)
      (whole0 : s0.mem.len ≡ size) (ends : s.woff + n ≤ size)
      (room : used size roff s0.woff + s.total + n < size) where
    abbrev k : ℕ
    k = (writer s.context s.mem s.woff n).written

    k-le : k ≤ n
    k-le = w.at_most s.context s.mem s.woff n

    queued : used size roff s0.woff + s.total ≡ used size roff s.woff
    queued = f.grown

    still :
        (i : ℕ)
        → i < used size roff s.woff
        → (after s n k).mem.at (place size roff i) ≡ s.mem.at (place size roff i)
    still i h =
        w.frame s.context s.mem s.woff n (place size roff i)
          (apart n f.valid ends (omega (arith, queued)) i h)

    given-after :
        given (after s n k).context
        ≡ given s0.context ++ fresh given size roff s0 (after s n k) (s.total + k)
    given-after =
        w.gives s.context s.mem s.woff n
        ∙ ap (λ l. l ++ bytes (λ i. (after s n k).mem.at (s.woff + i)) k) f.gives
        ∙ append_assoc (given s0.context) (fresh given size roff s0 s s.total)
            (bytes (λ i. (after s n k).mem.at (s.woff + i)) k)
        ∙ ap (λ l. given s0.context ++ l)
            (bytes-append _ _ _ s.total k _ refl
              (λ i h. sym (still (used size roff s0.woff + i) (omega (arith, queued))))
              (λ i h. ap (after s n k).mem.at (
                place-behind n f.valid ends (omega (arith, queued)) i (omega (arith, k-le))
                ∙ ap (place size roff) (omega (arith, queued)))))

    after-IsFed : IsFed given size roff s0 (after s n k)
    after-IsFed = record {
      valid = ground (arith, k-le, f.valid, f.grown);
      grown = ground (arith, k-le, f.valid, f.grown);
      kept = λ i h. still i (omega (arith, queued)) ∙ f.kept i h;
      gives = given-after;
      len_eq = w.len_eq s.context s.mem s.woff n ∙ f.len_eq;
    }

    pub write_step-IsStep :
        (there : ℕ)
        → there ≡ s.woff
        → (r : Feeding C × Bool) × (write_step writer size there n s ≡ some r) × IsStep n s r
    unfolding write_step
    write_step-IsStep there e =
        rw
          (
            e,
            inside,
            add_size-eq s.woff k (omega (arith, k-le, f.valid)),
            mod-eq-wrap (s.woff + k) size (omega arith) (omega (arith, k-le)),
            add_size-eq s.total k (omega (arith, k-le)),
          )
          (elim (Bool-cases (ltb k n)) [
            | inl less ↦ rw less (
              (record (after s n k) { eof = set_eof s.eof }, true),
              refl,
              record {
                fed = eof-IsFed given size roff s0 (after s n k) (set_eof s.eof) after-IsFed;
                short = λ _. (ground arith, refl);
                whole = λ b. cc;
              },
            )
            | inr all ↦ rw all (
              (after s n k, false),
              refl,
              record {
                fed = after-IsFed;
                short = λ b. cc;
                whole = λ _. (ground (arith, k-le), refl, ground (arith, k-le));
              },
            )
          ])
      where
        inside : leb (s.woff + n) s.mem.len ≡ true
        inside = ground (arith, f.len_eq)
