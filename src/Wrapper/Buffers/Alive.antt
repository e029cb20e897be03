-- ===== src/Wrapper/Buffers/Alive.antt =====
-- A buffered stream never outlives the stream that it reads from.
use libstreamlike.Common.{
  Bool, ℕ, ◌≡◌, ◌≢◌, ◌∙◌, inl, inr, refl, sym, ap, arith, true, ◌==◌, if-true, if-false, subst,
  Option, none, some, some_inj, ◌∷◌, Ensures, Bool-cases,
}
use libstreamlike.Wrapper.Owner.{Objects, has, put, take, construct_self, destruct_self}
use libstreamlike.Wrapper.Owner.Held.{
  destruct_self-ended, IsOwned, has-without, put-cases, take-from, left_as, none-some, some-eq,
  construct-IsOwned, take-IsOwned, destruct-IsOwned,
}
use libstreamlike.Wrapper.Owner.Release.{put-same, put-other}
use libstreamlike.Wrapper.Buffers.{plain, outer, member, over}

-- Every stream that a live buffered stream reads from is live, and the object that holds it is the member
-- of the object that holds the buffered stream.
pub record IsNested (w : Objects) (inner : ℕ → Option ℕ) : Type 0 where
  pub owned : IsOwned w
  pub alive : (b h : ℕ) → has b w.live ≡ true → inner b ≡ some h → has h w.live ≡ true
  pub under :
      (b h y : ℕ)
      → has b w.live ≡ true
      → inner b ≡ some h
      → w.self y ≡ some (some h)
      → (x : ℕ) × (y ≡ member x) × (w.self (outer x) ≡ some (some b))

module _ (w : Objects) (inner : ℕ → Option ℕ) (v : IsNested w inner) where
  -- A stream that only a plain object or a base holds is not below another.
  pub not_below :
      (b h y : ℕ)
      → w.self y ≡ some (some h)
      → ((x : ℕ) → y ≢ member x)
      → has b w.live ≡ true
      → inner b ≢ some h
  not_below b h y e n l i = let (x, q, f) = v.under b h y l i e in n x q

  -- The fields behind a move of both
  module _ (x old : ℕ) (b h : Option ℕ) where
    abbrev pub moved : Objects
    moved = take (member x) (member old) h (take (outer x) (outer old) b w)

    taken-member :
        w.self (member old) ≡ some h → (take (outer x) (outer old) b w).self (member old) ≡ some h
    taken-member f =
        put-other (outer old) (some none) (put (outer x) (some b) w.self) (member old)
          (λ q. absurd (omega (arith, q)))
        ∙ put-other (outer x) (some b) w.self (member old) (λ q. absurd (omega (arith, q)))
        ∙ f

    moved-outer : (y : ℕ) → moved.self (outer y) ≡ (take (outer x) (outer old) b w).self (outer y)
    moved-outer y =
        put-other (member old) (some none)
          (put (member x) (some h) (take (outer x) (outer old) b w).self) (outer y)
          (λ q. absurd (omega (arith, q)))
        ∙ put-other (member x) (some h) (take (outer x) (outer old) b w).self (outer y)
            (λ q. absurd (omega (arith, q)))

    moved-other : (y : ℕ) → y ≢ x → y ≢ old → moved.self (outer y) ≡ w.self (outer y)
    moved-other y n m =
        moved-outer y
        ∙ put-other (outer old) (some none) (put (outer x) (some b) w.self) (outer y)
            (λ q. m (omega (arith, q)))
        ∙ put-other (outer x) (some b) w.self (outer y) (λ q. n (omega (arith, q)))

    moved-new : x ≢ old → moved.self (outer x) ≡ some b
    moved-new n =
        moved-outer x
        ∙ put-other (outer old) (some none) (put (outer x) (some b) w.self) (outer x)
            (λ q. n (omega (arith, q)))
        ∙ put-same (outer x) (some b) w.self

    moved-under :
        w.self (outer old) ≡ some b
        → w.self (member old) ≡ some h
        → (c k y : ℕ) → has c w.live ≡ true
        → inner c ≡ some k
        → moved.self y ≡ some (some k)
        → (z : ℕ) × (y ≡ member z) × (moved.self (outer z) ≡ some (some c))
    moved-under e f c k y l i m =
        let (z1, e1, ne, or1) =
          take-from (member x) (member old) h (take (outer x) (outer old) b w) y k (taken-member f)
            m in
        let (z0, e0, ne0, or0) = take-from (outer x) (outer old) b w z1 k e e1 in
        let (z, q, g) = v.under c k z0 l i e0 in
        elim or0 [
          | inl (p, r) ↦ absurd (omega (arith, q, r))
          | inr (p, r) ↦ elim or1 [
            | inl (a, d) ↦
                let same : old ≡ z = omega (arith, d, p, q) in
                let n : x ≢ old = λ t. ne (omega (arith, a, t)) in
                (x, a, moved-new n ∙ sym e ∙ ap (λ j. w.self (outer j)) same ∙ g)
            | inr (a, d) ↦ (
              z,
              omega (arith, a, p, q),
              moved-other z (λ t. d (omega (arith, a, p, q, t)))
                    (λ t. ne (omega (arith, a, p, q, t)))
                  ∙ g,
            )
          ]
        ]

    pub moved-IsNested :
        w.self (outer old) ≡ some b → w.self (member old) ≡ some h → IsNested moved inner
    moved-IsNested e f = record {
      owned =
          take-IsOwned (take-IsOwned v.owned (outer x) (outer old) b e) (member x) (member old) h
            (taken-member f);
      alive = v.alive;
      under = moved-under e f;
    }

  -- A plain object takes a stream over from another.
  pub taken-IsNested :
      (x old : ℕ) (h : Option ℕ)
      → w.self (plain old) ≡ some h
      → IsNested (take (plain x) (plain old) h w) inner
  taken-IsNested x old h e = record {
    owned = take-IsOwned v.owned (plain x) (plain old) h e;
    alive = v.alive;
    under = λ c k y l i m.
        let (z0, e0, ne, or0) = take-from (plain x) (plain old) h w y k e m in
        let (z, q, g) = v.under c k z0 l i e0 in
        elim or0 [
          | inl (p, r) ↦ absurd (omega (arith, q, r))
          | inr (p, r) ↦ (
            z,
            p ∙ q,
            put-other (plain old) (some none) (put (plain x) (some h) w.self) (outer z)
                  (λ t. absurd (omega (arith, t)))
                ∙ put-other (plain x) (some h) w.self (outer z) (λ t. absurd (omega (arith, t)))
                ∙ g,
          )
        ];
  }

  -- The lifetime of an object ends; no live stream is over the one that it holds.
  abbrev pub Ended : ℕ → Objects → Type 0
  Ended y w' = IsNested w' inner × (w'.self y ≡ none)

  pub destruct_self-Ended :
      (y : ℕ) (ok : Bool) (o : Option (Option ℕ))
      → w.self y ≡ o
      → ((h b : ℕ) → o ≡ some (some h) → has b w.live ≡ true → inner b ≢ some h)
      → Ensures (Ended y) (destruct_self y ok o w)
  destruct_self-Ended y ok none e clear = (v, e)
  destruct_self-Ended y ok (some none) e clear = (
    record {
      owned = destruct-IsOwned v.owned y ok (some none) e;
      alive = v.alive;
      under = λ c k u l i m.
          let (n, f) = left_as v.owned y u k m in
          let (z, q, g) = v.under c k u l i f in
          (z, q, put-other y none w.self (outer z) (λ t. apart c z e g t) ∙ g);
    },
    put-same y none w.self,
  )
    where
      apart : (c z : ℕ) → w.self y ≡ some none → w.self (outer z) ≡ some (some c) → outer z ≢ y
      apart c z e g t = none-some (some-eq (sym e ∙ ap w.self (sym t) ∙ g))
  destruct_self-Ended y ok (some (some h)) e clear =
      let p = destruct_self-ended y h ok w (v.owned.alive y h e) in
      subst (Ensures (Ended y)) (sym p) (
        record {
          owned = subst (Ensures IsOwned) p (destruct-IsOwned v.owned y ok (some (some h)) e);
          alive = λ c k l i.
              let a : has c w.live ≡ true = ground (arith, l, has-without c h w.live) in
              let n : k ≢ h = λ t. clear h c refl a (i ∙ ap (λ j. some j) t) in
              ground (arith, has-without k h w.live, v.alive c k a i, n);
          under = λ c k u l i m.
              let a : (has c w.live ≡ true) × (c ≢ h) = ground (arith, l, has-without c h w.live) in
              let (n, f) = left_as v.owned y u k m in
              let (z, q, g) = v.under c k u a.0 i f in
              (
                z,
                q,
                put-other y none w.self (outer z) (λ t.
                      a.1 (some_inj c h (some_inj (some c) (some h) (sym g ∙ ap w.self t ∙ e))))
                    ∙ g,
              );
        },
        put-same y none w.self,
      )

  -- A stream that is over another is an old one.
  made-old :
      (c k : ℕ)
      → has c (w.next ∷ w.live) ≡ true
      → over w.next none inner c ≡ some k
      → (has c w.live ≡ true) × (inner c ≡ some k)
  made-old c k l i = elim (Bool-cases (c == w.next)) [
    | inl q ↦ absurd (none-some (sym (if-true (c == w.next) none (inner c) q) ∙ i))
    | inr q ↦ (ground (arith, l, q), sym (if-false (c == w.next) none (inner c) q) ∙ i)
  ]

  -- A new stream, over none, in an object that was not one
  pub made-IsNested :
      (y : ℕ) → w.self y ≡ none → IsNested (construct_self y true none w) (over w.next none inner)
  made-IsNested y e = record {
    owned = construct-IsOwned v.owned y true none e;
    alive = λ c k l i. let (a, f) = made-old c k l i in ground (arith, v.alive c k a f);
    under = λ c k u l i m.
        let (a, f) = made-old c k l i in
        elim (put-cases y (some (some w.next)) w.self u (some (some k)) m) [
          | inl (t, g) ↦ absurd (
              ground (
                arith,
                some_inj w.next k (some_inj (some w.next) (some k) g),
                v.owned.numbered k (v.alive c k a f),
              ))
          | inr (n, g) ↦
              let (z, q, r) = v.under c k u a f g in
              (
                z,
                q,
                put-other y (some (some w.next)) w.self (outer z)
                      (λ t. none-some (sym e ∙ ap w.self (sym t) ∙ r))
                    ∙ r,
              )
        ];
  }

  -- A number that no stream has yet may be said to be over any.
  pub over-IsNested : (below : Option ℕ) → IsNested w (over w.next below inner)
  over-IsNested below =
      let old : (c k : ℕ)
          → has c w.live ≡ true
          → over w.next below inner c ≡ some k
          → inner c ≡ some k =
        λ c k l i.
          sym (if-false (c == w.next) below (inner c) (ground (arith, v.owned.numbered c l))) ∙ i in
      record {
        owned = v.owned;
        alive = λ c k l i. v.alive c k l (old c k l i);
        under = λ c k u l i m. v.under c k u l (old c k l i) m;
      }
