-- ===== src/Wrapper/Buffers/Built.antt =====
-- The constructor of `StreamlikeBuffer`, which makes a buffered stream over that of another object.
use libstreamlike.Common.{
  ℕ, ◌≡◌, ◌∙◌, ◌⊎◌, inl, inr, sym, ap, arith, true, ◌==◌, if-true, if-false, subst, Option, none,
  some, some_inj, Bool-cases,
}
use libstreamlike.Wrapper.Owner.{Objects, has, put, take, construct_self}
use libstreamlike.Wrapper.Owner.Held.{take-from, take-IsOwned}
use libstreamlike.Wrapper.Owner.Release.{put-same, put-other}
use libstreamlike.Wrapper.Buffers.{plain, outer, member, over}
-- Every stream that a buffered stream reads from is live as long as that one, and the object that holds it
-- is the member of the object that holds the buffered stream.
use libstreamlike.Wrapper.Buffers.Alive.{IsNested, made-IsNested}

module _ (w : Objects) (inner : ℕ → Option ℕ) (v : IsNested w inner) where
  -- A buffered stream is made over the stream of a plain object, which becomes the member.
  module _ (x old h : ℕ) (e : w.self (outer x) ≡ none)
      (f : w.self (plain old) ≡ some (some h)) where
    abbrev pub begun : Objects
    begun = construct_self (outer x) true none w

    abbrev pub built : Objects
    built = take (member x) (plain old) (some h) begun

    begun-IsNested : IsNested begun (over w.next none inner)
    begun-IsNested = made-IsNested w inner v (outer x) e

    begun-old : begun.self (plain old) ≡ some (some h)
    begun-old =
        put-other (outer x) (some (some w.next)) w.self (plain old) (λ t. absurd (omega (arith, t)))
        ∙ f

    built-outer : (z : ℕ) → built.self (outer z) ≡ begun.self (outer z)
    built-outer z =
        put-other (plain old) (some none) (put (member x) (some (some h)) begun.self) (outer z)
          (λ t. absurd (omega (arith, t)))
        ∙ put-other (member x) (some (some h)) begun.self (outer z) (λ t. absurd (omega (arith, t)))

    below-cases :
        (c k : ℕ)
        → over w.next (some h) inner c ≡ some k
        → ((c ≡ w.next) × (k ≡ h)) ⊎ (over w.next none inner c ≡ some k)
    below-cases c k i = elim (Bool-cases (c == w.next)) [
      | inl q ↦
          inl (ground (arith, q), some_inj k h (sym i ∙ if-true (c == w.next) (some h) (inner c) q))
      | inr q ↦ inr (
          if-false (c == w.next) none (inner c) q
          ∙ sym (if-false (c == w.next) (some h) (inner c) q)
          ∙ i)
    ]

    built-under :
        (c k y : ℕ)
        → has c begun.live ≡ true
        → over w.next (some h) inner c ≡ some k
        → built.self y ≡ some (some k)
        → (z : ℕ) × (y ≡ member z) × (built.self (outer z) ≡ some (some c))
    built-under c k y l i m =
        let (z0, e0, ne, or0) = take-from (member x) (plain old) (some h) begun y k begun-old m in
        elim (below-cases c k i) [
          | inl (q, r) ↦
              let s : z0 ≡ plain old =
                begun-IsNested.owned.sole z0 (plain old) h (e0 ∙ ap (λ j. some (some j)) r)
                  begun-old in
              elim or0 [
                | inl (a, d) ↦ (
                  x,
                  a,
                  built-outer x
                      ∙ put-same (outer x) (some (some w.next)) w.self
                      ∙ ap (λ j. some (some j)) (sym q),
                )
                | inr (a, d) ↦ absurd (ne (a ∙ s))
              ]
          | inr j ↦
              let (z, q, g) = begun-IsNested.under c k z0 l j e0 in
              elim or0 [
                | inl (a, d) ↦ absurd (omega (arith, q, d))
                | inr (a, d) ↦ (z, a ∙ q, built-outer z ∙ g)
              ]
        ]

    pub built-IsNested : IsNested built (over w.next (some h) inner)
    built-IsNested = record {
      owned = take-IsOwned begun-IsNested.owned (member x) (plain old) (some h) begun-old;
      alive = λ c k l i. elim (below-cases c k i) [
        | inl (q, r) ↦
            subst (λ j. has j begun.live ≡ true) (sym r)
              (begun-IsNested.owned.alive (plain old) h begun-old)
        | inr j ↦ begun-IsNested.alive c k l j
      ];
      under = built-under;
    }
