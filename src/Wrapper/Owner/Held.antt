-- ===== src/Wrapper/Owner/Held.antt =====
-- Every stream that an object holds is its own, and has not been destroyed.
use libstreamlike.Common.{
  if◌then◌else◌, ℕ, ◌<◌, ◌≡◌, ◌≢◌, ◌∙◌, ◌⊎◌, inl, inr, refl, sym, ap, arith, Bool, true, not, ◌==◌,
  ◌&&◌, if-both, if-true, if-false, subst, Option, none, some, ◌>>=◌, List, [], ◌∷◌, Ensures,
  Ensures-bind, Bool-cases,
}
use libstreamlike.Wrapper.Owner.{
  Objects, no_objects, has, without, put, take, Op, construct, move_construct, move_assign,
  destruct, construct_self, move_construct_self, move_assign_self, destruct_self, step, run,
}

pub has-without : (k h : ℕ) (ks : List ℕ) → has k (without h ks) ≡ (not (k == h) && has k ks)
has-without k h [] = ground arith
has-without k h (x ∷ ks) = ground (arith, has-without k h ks)

-- What a destructor leaves of a stream that was live
abbrev pub ended : ℕ → ℕ → Bool → Objects → Objects
ended x h ok w = record w {
  live = without h w.live;
  stuck = if ok then w.stuck else h ∷ w.stuck;
  self = put x none w.self;
}

pub destruct_self-ended :
    (x h : ℕ) (ok : Bool) (w : Objects)
    → has h w.live ≡ true
    → destruct_self x ok (some (some h)) w ≡ some (ended x h ok w)
destruct_self-ended x h ok w e =
    ap
      (λ (o : Option Objects).
        o >>= λ (w' : Objects). some (record w' { self = put x none w.self }))
      (if-true _ _ _ e)

-- Streams are numbered in the order that they are made; one that an object holds is live, and no other
-- object holds it.
pub record IsOwned (w : Objects) : Type 0 where
  pub numbered : (h : ℕ) → has h w.live ≡ true → h < w.next
  pub alive : (x h : ℕ) → w.self x ≡ some (some h) → has h w.live ≡ true
  pub sole : (x y h : ℕ) → w.self x ≡ some (some h) → w.self y ≡ some (some h) → x ≡ y

-- Who holds a stream once the field of `x` is put
pub put-cases :
    (x : ℕ) (o : Option (Option ℕ)) (self : ℕ → Option (Option ℕ)) (y : ℕ) (r : Option (Option ℕ))
    → put x o self y ≡ r
    → ((y ≡ x) × (o ≡ r)) ⊎ ((y ≢ x) × (self y ≡ r))
put-cases x o self y r l = elim (Bool-cases (y == x)) [
  | inl e ↦ inl (ground (arith, e), sym (if-true _ _ _ e) ∙ l)
  | inr e ↦ inr (ground (arith, e), sym (if-false _ _ _ e) ∙ l)
]

-- Where what `y` holds was before the stream of `old` was taken over by `x`
pub take-from :
    (x old : ℕ) (h : Option ℕ) (w : Objects) (y k : ℕ)
    → w.self old ≡ some h
    → (take x old h w).self y ≡ some (some k)
    → (z : ℕ) × (w.self z ≡ some (some k))
      × (y ≢ old)
      × (((y ≡ x) × (z ≡ old)) ⊎ ((y ≡ z) × (y ≢ x)))
take-from x old h w y k e l =
    elim (put-cases old (some none) (put x (some h) w.self) y (some (some k)) l) [
      | inl (a, f) ↦ absurd cc
      | inr (a, l') ↦ elim (put-cases x (some h) w.self y (some (some k)) l') [
        | inl (c, f) ↦ (old, e ∙ f, a, inl (c, refl))
        | inr (c, f) ↦ (y, f, a, inr (refl, c))
      ]
    ]

pub some-eq : {A : Type 0} {a b : A} → some a ≡ some b → a ≡ b
some-eq e = cc

pub none-some : {A : Type 0} {a : A} → ¬ (none ≡ some a)
none-some e = cc

module _ {w : Objects} (v : IsOwned w) where
  pub construct-IsOwned :
      (x : ℕ) (ok : Bool) (o : Option (Option ℕ)) → w.self x ≡ o → IsOwned (construct_self x ok o w)
  construct-IsOwned x ok none e =
      if-both IsOwned ok
        (λ _. record {
          numbered = λ h l. ground (arith, l, v.numbered h);
          alive = λ y h l. elim (put-cases x _ w.self y _ l) [
            | inl (a, f) ↦ ground (arith, some-eq (some-eq f))
            | inr (a, f) ↦ ground (arith, v.alive y h f)
          ];
          sole = λ y z h l m. elim (put-cases x _ w.self y _ l) [
            | inl (a, f) ↦ elim (put-cases x _ w.self z _ m) [
              | inl (c, g) ↦ a ∙ sym c
              | inr (c, g) ↦
                  absurd (ground (arith, some-eq (some-eq f), v.numbered h (v.alive z h g)))
            ]
            | inr (a, f) ↦ elim (put-cases x _ w.self z _ m) [
              | inl (c, g) ↦
                  absurd (ground (arith, some-eq (some-eq g), v.numbered h (v.alive y h f)))
              | inr (c, g) ↦ v.sole y z h f g
            ]
          ];
        })
        (λ _. v)
  construct-IsOwned x ok (some o) e = v

  pub take-IsOwned : (x old : ℕ) (h : Option ℕ) → w.self old ≡ some h → IsOwned (take x old h w)
  take-IsOwned x old h e = record {
    numbered = v.numbered;
    alive = λ y k l. let (z, f, a, c) = take-from x old h w y k e l in v.alive z k f;
    sole = λ y z k l m.
        let (y', f, a, c) = take-from x old h w y k e l in
        let (z', g, a', d) = take-from x old h w z k e m in
        ground (arith, v.sole y' z' k f g, a, a', c, d);
  }

  -- The objects besides one whose lifetime ends
  pub left_as :
      (x y k : ℕ) → put x none w.self y ≡ some (some k) → (y ≢ x) × (w.self y ≡ some (some k))
  left_as x y k l = elim (put-cases x _ w.self y _ l) [ inl (a, f) ↦ absurd cc | inr r ↦ r ]

  pub destruct-IsOwned :
      (x : ℕ) (ok : Bool) (o : Option (Option ℕ))
      → w.self x ≡ o
      → Ensures IsOwned (destruct_self x ok o w)
  destruct-IsOwned x ok none e = v
  destruct-IsOwned x ok (some none) e = record {
    numbered = v.numbered;
    alive = λ y k l. v.alive y k (left_as x y k l).1;
    sole = λ y z k l m. v.sole y z k (left_as x y k l).1 (left_as x z k m).1;
  }
  destruct-IsOwned x ok (some (some h)) e =
      let a = v.alive x h e in
      subst (Ensures IsOwned) (sym (destruct_self-ended x h ok w a)) (record {
        numbered = λ k l. v.numbered k (ground (arith, l, has-without k h w.live));
        alive = λ y k l.
            let (c, f) = left_as x y k l in
            ground (arith, has-without k h w.live, v.alive y k f, only x y h k e c f);
        sole = λ y z k l m. v.sole y z k (left_as x y k l).1 (left_as x z k m).1;
      })
    where
      only : (x y h k : ℕ) → w.self x ≡ some (some h) → y ≢ x → w.self y ≡ some (some k) → k ≢ h
      only x y h k e c f q = c (v.sole y x k f (e ∙ ap (λ j. some (some j)) (sym q)))

  move_construct-IsOwned :
      (x old : ℕ) (o p : Option (Option ℕ))
      → w.self old ≡ p
      → IsOwned (move_construct_self x old o p w)
  move_construct-IsOwned x old none none e = v
  move_construct-IsOwned x old none (some h) e = take-IsOwned x old h e
  move_construct-IsOwned x old (some o) none e = v
  move_construct-IsOwned x old (some o) (some h) e = v

  move_assign-IsOwned :
      (x old : ℕ) (o p : Option (Option ℕ))
      → w.self old ≡ p
      → IsOwned (move_assign_self x old o p w)
  move_assign-IsOwned x old none none e = v
  move_assign-IsOwned x old none (some h) e = v
  move_assign-IsOwned x old (some o) none e = v
  move_assign-IsOwned x old (some o) (some h) e = take-IsOwned x old h e

pub step-IsOwned : (o : Op) (w : Objects) → IsOwned w → Ensures IsOwned (step o w)
unfolding step
step-IsOwned (construct x ok) w v = construct-IsOwned v x ok (w.self x) refl
step-IsOwned (move_construct x old) w v =
    move_construct-IsOwned v x old (w.self x) (w.self old) refl
step-IsOwned (move_assign x old) w v = move_assign-IsOwned v x old (w.self x) (w.self old) refl
step-IsOwned (destruct x ok) w v = destruct-IsOwned v x ok (w.self x) refl

run-kept : (os : List Op) (w : Objects) → IsOwned w → Ensures IsOwned (run os w)
unfolding run
run-kept [] w v = v
run-kept (o ∷ os) w v =
    Ensures-bind IsOwned IsOwned (run os) (λ w' v'. run-kept os w' v') (step o w)
      (step-IsOwned o w v)

pub no_objects-IsOwned : IsOwned no_objects
no_objects-IsOwned = record {
  numbered = λ h l. absurd (grind (arith, l));
  alive = λ x h l. absurd (none-some l);
  sole = λ x y h l m. absurd (none-some l);
}

-- Whatever a program constructs, moves, assigns and destructs, and whichever constructors throw, no
-- stream is destroyed twice; at any moment a stream that an object holds has not been destroyed, and
-- no other object holds it.
pub run-IsOwned : (os : List Op) → Ensures IsOwned (run os no_objects)
run-IsOwned os = run-kept os no_objects no_objects-IsOwned
