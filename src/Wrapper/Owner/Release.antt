-- ===== src/Wrapper/Owner/Release.antt =====
-- Without `operator=`, no stream is lost.
use libstreamlike.Memory.{length}
use libstreamlike.Common.{
  if◌then◌else◌, ◌+◌, ◌≤◌, ℕ, ◌≡◌, ◌≢◌, ◌∙◌, inl, inr, refl, sym, ap, arith, Bool, Bool-cases, true,
  ◌==◌, if-both, if-true, if-false, subst, Option, none, some, List, [], ◌∷◌, Ensures, Ensures-bind,
  Ensures-map,
}
use libstreamlike.Wrapper.Owner.{
  move_assign_self, Objects, no_objects, has, put, Op, construct, move_construct, move_assign,
  destruct, construct_self, move_construct_self, destruct_self, step, run,
}
use libstreamlike.Wrapper.Owner.Held.{
  IsOwned, destruct_self-ended, has-without, none-some, some-eq, no_objects-IsOwned, step-IsOwned,
}

-- The program assigns no object.
abbrev pub HasNoAssign : List Op → Type 0
HasNoAssign [] = Unit
HasNoAssign (move_assign x old ∷ os) = ⊥
HasNoAssign (construct x ok ∷ os) = HasNoAssign os
HasNoAssign (move_construct x old ∷ os) = HasNoAssign os
HasNoAssign (destruct x ok ∷ os) = HasNoAssign os

-- How many of the functions that destroy streams fail
abbrev pub failed : Op → ℕ
failed (destruct x ok) = if ok then 0 else 1
failed (construct x ok) = 0
failed (move_construct x old) = 0
failed (move_assign x old) = 0

abbrev pub failures : List Op → ℕ
failures [] = 0
failures (o ∷ os) = failed o + failures os

-- Every live stream is held by an object.
abbrev pub IsHeld : Objects → Type 0
IsHeld w = (h : ℕ) → has h w.live ≡ true → (x : ℕ) × (w.self x ≡ some (some h))

pub put-same : (x : ℕ) (o : Option (Option ℕ)) (self : ℕ → Option (Option ℕ)) → put x o self x ≡ o
put-same x o self = if-true (x == x) o (self x) (ground arith)

pub put-other :
    (x : ℕ) (o : Option (Option ℕ)) (self : ℕ → Option (Option ℕ)) (y : ℕ)
    → y ≢ x
    → put x o self y ≡ self y
put-other x o self y n = if-false (y == x) o (self y) (ground (arith, n))

-- A field is put where another value was.
put-beside :
    (x : ℕ) (o r s : Option (Option ℕ)) (self : ℕ → Option (Option ℕ)) (y : ℕ)
    → self x ≡ s
    → s ≢ r
    → self y ≡ r
    → put x o self y ≡ r
put-beside x o r s self y e n l = put-other x o self y (λ q. n (sym e ∙ ap self (sym q) ∙ l)) ∙ l

module _ (w : Objects) (v : IsHeld w) where
  construct-IsHeld :
      (x : ℕ) (ok : Bool) (o : Option (Option ℕ)) → w.self x ≡ o → IsHeld (construct_self x ok o w)
  construct-IsHeld x ok none e =
      if-both IsHeld ok
        (λ _ h l. elim (Bool-cases (h == w.next)) [
          | inl q ↦ (x, put-same x _ w.self ∙ ap (λ j. some (some j)) (ground (arith, q)))
          | inr q ↦
              let (y, f) = v h (ground (arith, l, q)) in
              (y, put-beside x _ _ none w.self y e none-some f)
        ])
        (λ _. v)
  construct-IsHeld x ok (some o) e = v

  move_construct-IsHeld :
      (x old : ℕ) (o p : Option (Option ℕ))
      → w.self x ≡ o
      → w.self old ≡ p
      → IsHeld (move_construct_self x old o p w)
  move_construct-IsHeld x old none none e f = v
  move_construct-IsHeld x old none (some p) e f = λ h l.
      let (y, g) = v h l in
      elim (Bool-cases (y == old)) [
        | inl q ↦ (
          x,
          put-other old (some none) (put x (some p) w.self) x
                (λ c. none-some (sym e ∙ ap w.self c ∙ f))
              ∙ put-same x (some p) w.self
              ∙ sym f
              ∙ ap w.self (sym (ground (arith, q)))
              ∙ g,
        )
        | inr q ↦ (
          y,
          put-other old (some none) (put x (some p) w.self) y (ground (arith, q))
              ∙ put-beside x (some p) _ none w.self y e none-some g,
        )
      ]
  move_construct-IsHeld x old (some o) none e f = v
  move_construct-IsHeld x old (some o) (some p) e f = v

  destruct-IsHeld :
      (x : ℕ) (ok : Bool) (o : Option (Option ℕ))
      → IsOwned w
      → w.self x ≡ o
      → Ensures IsHeld (destruct_self x ok o w)
  destruct-IsHeld x ok none u e = v
  destruct-IsHeld x ok (some none) u e = λ h l.
      let (y, g) = v h l in
      (y, put-beside x _ _ (some none) w.self y e (λ q. none-some (some-eq q)) g)
  destruct-IsHeld x ok (some (some k)) u e =
      subst (Ensures IsHeld) (sym (destruct_self-ended x k ok w (u.alive x k e))) (λ h l.
        let a : (has h w.live ≡ true) × (h ≢ k) = ground (arith, l, has-without h k w.live) in
        let (y, g) = v h a.0 in
        (y, put-beside x _ _ (some (some k)) w.self y e (λ q. a.1 (sym (some-eq (some-eq q)))) g))

abbrev Both : Objects → Type 0
Both w = IsOwned w × IsHeld w

both : (o : Option Objects) → Ensures IsOwned o → Ensures IsHeld o → Ensures Both o
both none u v = u
both (some w) u v = (u, v)

run-Both : (os : List Op) (w : Objects) → HasNoAssign os → Both w → Ensures Both (run os w)
unfolding run step
run-Both [] w n b = b
run-Both (construct x ok ∷ os) w n b =
    run-Both os _ n
      (step-IsOwned (construct x ok) w b.0, construct-IsHeld w b.1 x ok (w.self x) refl)
run-Both (move_construct x old ∷ os) w n b = run-Both os _ n (
  step-IsOwned (move_construct x old) w b.0,
  move_construct-IsHeld w b.1 x old (w.self x) (w.self old) refl refl,
)
run-Both (move_assign x old ∷ os) w n b = absurd n
run-Both (destruct x ok ∷ os) w n b =
    Ensures-bind Both Both (run os) (λ w' b'. run-Both os w' n b') (destruct_self x ok (w.self x) w)
      (both _ (step-IsOwned (destruct x ok) w b.0) (destruct-IsHeld w b.1 x ok (w.self x) b.0 refl))

-- A step leaves no more streams half destroyed than it fails to destroy.
abbrev Few : ℕ → Objects → Type 0
Few n w = length w.stuck ≤ n

step-Few : (o : Op) (w : Objects) → IsOwned w → Ensures (Few (length w.stuck + failed o)) (step o w)
unfolding step
step-Few (construct x ok) w v = construct-Few (w.self x)
  where
    construct-Few : (o : Option (Option ℕ)) → Few (length w.stuck + 0) (construct_self x ok o w)
    construct-Few none = if-both (Few (length w.stuck + 0)) ok (λ _. omega arith) (λ _. omega arith)
    construct-Few (some o) = omega arith
step-Few (move_construct x old) w v = move_construct-Few (w.self x) (w.self old)
  where
    move_construct-Few :
        (o p : Option (Option ℕ)) → Few (length w.stuck + 0) (move_construct_self x old o p w)
    move_construct-Few none none = omega arith
    move_construct-Few none (some h) = omega arith
    move_construct-Few (some o) p = omega arith
step-Few (move_assign x old) w v = move_assign-Few (w.self x) (w.self old)
  where
    move_assign-Few :
        (o p : Option (Option ℕ)) → Few (length w.stuck + 0) (move_assign_self x old o p w)
    move_assign-Few none p = omega arith
    move_assign-Few (some o) none = omega arith
    move_assign-Few (some o) (some h) = omega arith
step-Few (destruct x ok) w v = destruct-Few (w.self x) refl
  where
    destruct-Few :
        (o : Option (Option ℕ))
        → w.self x ≡ o
        → Ensures (Few (length w.stuck + (if ok then 0 else 1))) (destruct_self x ok o w)
    destruct-Few none e = ground arith
    destruct-Few (some none) e = ground arith
    destruct-Few (some (some h)) e =
        subst (Ensures (Few (length w.stuck + (if ok then 0 else 1))))
          (sym (destruct_self-ended x h ok w (v.alive x h e))) (ground arith)

run-Few :
    (os : List Op) (n : ℕ) (w : Objects)
    → IsOwned w
    → Few n w
    → Ensures (Few (n + failures os)) (run os w)
unfolding run
run-Few [] n w v f = omega (arith, f)
run-Few (o ∷ os) n w v f =
    Ensures-bind Stepped (Few (n + failures (o ∷ os))) (run os)
      (λ w' r.
        Ensures-map (Few (n + failed o + failures os)) (Few (n + failures (o ∷ os)))
          (λ x g. omega (arith, g)) (run os w')
          (run-Few os (n + failed o) w' r.0 (omega (arith, r.1, f))))
      (step o w) (both_steps (step o w) (step-IsOwned o w v) (step-Few o w v))
  where
    Stepped : Objects → Type 0
    Stepped w' = IsOwned w' × Few (length w.stuck + failed o) w'

    both_steps :
        (r : Option Objects)
        → Ensures IsOwned r
        → Ensures (Few (length w.stuck + failed o)) r
        → Ensures Stepped r
    both_steps none u g = u
    both_steps (some w') u g = (u, g)

-- Every stream that is live is held by an object, and at most `n` are stuck.
abbrev pub IsTidy : ℕ → Objects → Type 0
IsTidy n w = IsHeld w × (length w.stuck ≤ n)

tidy : (n : ℕ) (o : Option Objects) → Ensures Both o → Ensures (Few n) o → Ensures (IsTidy n) o
tidy n none b f = b
tidy n (some w) b f = (b.1, f)

-- In a program that constructs, moves into new objects and destructs, but assigns to no object, every
-- stream that has not yet been passed to the function that destroys it is held by an object at any
-- moment, so that once all objects are gone every stream that was made has been passed to that
-- function; and no more streams are left half destroyed than calls of it failed.
pub run-IsTidy :
    (os : List Op) → HasNoAssign os → Ensures (IsTidy (failures os)) (run os no_objects)
run-IsTidy os n =
    let v = no_objects-IsOwned in
    tidy (failures os) (run os no_objects)
      (run-Both os no_objects n (v, λ h l. absurd (grind (arith, l))))
      (Ensures-map (Few (0 + failures os)) (Few (failures os)) (λ w f. omega (arith, f))
        (run os no_objects) (run-Few os 0 no_objects v (omega arith)))
