-- ===== src/Wrapper/Owner/Leak.antt =====
-- A stream that `operator=` overwrites is lost.
use libstreamlike.Common.{
  ℕ, ◌≡◌, ◌≢◌, ◌∙◌, inl, inr, refl, sym, ap, arith, Bool, true, if-both, subst, Option, none, some,
  List, [], ◌∷◌, Ensures, Ensures-bind,
}
use libstreamlike.Wrapper.Owner.{
  Objects, has, put, take, Op, construct, move_construct, move_assign, destruct, construct_self,
  move_construct_self, move_assign_self, destruct_self, step, run,
}
use libstreamlike.Wrapper.Owner.Held.{
  destruct_self-ended, IsOwned, has-without, put-cases, take-from, some-eq, none-some, step-IsOwned,
}

-- The stream `h` is live, and no object holds it.
pub record IsLost (h : ℕ) (w : Objects) : Type 0 where
  pub owned : IsOwned w
  pub alive : has h w.live ≡ true
  pub unheld : (y : ℕ) → w.self y ≢ some (some h)

module _ {h : ℕ} {w : Objects} (v : IsLost h w) where
  open v use {owned, alive, unheld}

  -- What a step has to keep, but for who owns what
  abbrev Kept : Objects → Type 0
  Kept w' = (has h w'.live ≡ true) × ((y : ℕ) → w'.self y ≢ some (some h))

  construct-Kept : (x : ℕ) (ok : Bool) (o : Option (Option ℕ)) → Kept (construct_self x ok o w)
  construct-Kept x ok none =
      if-both Kept ok
        (λ _. (
          ground (arith, alive),
          λ y l. elim (put-cases x _ w.self y _ l) [
            | inl (a, f) ↦ ground (arith, some-eq (some-eq f), owned.numbered h alive)
            | inr (a, f) ↦ unheld y f
          ],
        ))
        (λ _. (alive, unheld))
  construct-Kept x ok (some o) = (alive, unheld)

  take-Kept : (x old : ℕ) (p : Option ℕ) → w.self old ≡ some p → Kept (take x old p w)
  take-Kept x old p e = (alive, λ y l. let (z, f, a, c) = take-from x old p w y h e l in unheld z f)

  move_construct-Kept :
      (x old : ℕ) (o p : Option (Option ℕ))
      → w.self old ≡ p
      → Kept (move_construct_self x old o p w)
  move_construct-Kept x old none none e = (alive, unheld)
  move_construct-Kept x old none (some p) e = take-Kept x old p e
  move_construct-Kept x old (some o) none e = (alive, unheld)
  move_construct-Kept x old (some o) (some p) e = (alive, unheld)

  move_assign-Kept :
      (x old : ℕ) (o p : Option (Option ℕ)) → w.self old ≡ p → Kept (move_assign_self x old o p w)
  move_assign-Kept x old none none e = (alive, unheld)
  move_assign-Kept x old none (some p) e = (alive, unheld)
  move_assign-Kept x old (some o) none e = (alive, unheld)
  move_assign-Kept x old (some o) (some p) e = take-Kept x old p e

  -- An object whose lifetime ends is no object that holds it.
  unheld-put : (x y : ℕ) → put x none w.self y ≢ some (some h)
  unheld-put x y l = elim (put-cases x none w.self y _ l) [
    | inl (a, f) ↦ none-some f
    | inr (a, f) ↦ unheld y f
  ]

  destruct-Kept :
      (x : ℕ) (ok : Bool) (o : Option (Option ℕ))
      → w.self x ≡ o
      → Ensures Kept (destruct_self x ok o w)
  destruct-Kept x ok none e = (alive, unheld)
  destruct-Kept x ok (some none) e = (alive, unheld-put x)
  destruct-Kept x ok (some (some k)) e =
      subst (Ensures Kept) (sym (destruct_self-ended x k ok w (owned.alive x k e)))
        (ground (arith, has-without h k w.live, alive, other), unheld-put x)
    where
      other : h ≢ k
      other q = unheld x (e ∙ ap (λ j. some (some j)) (sym q))

  step-Kept : (o : Op) → Ensures Kept (step o w)
  unfolding step
  step-Kept (construct x ok) = construct-Kept x ok (w.self x)
  step-Kept (move_construct x old) = move_construct-Kept x old (w.self x) (w.self old) refl
  step-Kept (move_assign x old) = move_assign-Kept x old (w.self x) (w.self old) refl
  step-Kept (destruct x ok) = destruct-Kept x ok (w.self x) refl

both-IsLost :
    (h : ℕ) (o : Option Objects)
    → Ensures IsOwned o
    → Ensures (λ w. (has h w.live ≡ true) × ((y : ℕ) → w.self y ≢ some (some h))) o
    → Ensures (IsLost h) o
both-IsLost h none v k = v
both-IsLost h (some w) v k = record { owned = v; alive = k.0; unheld = k.1 }

run-IsLost : (h : ℕ) (os : List Op) (w : Objects) → IsLost h w → Ensures (IsLost h) (run os w)
unfolding run
run-IsLost h [] w v = v
run-IsLost h (o ∷ os) w v =
    Ensures-bind (IsLost h) (IsLost h) (run os) (λ w' v'. run-IsLost h os w' v') (step o w)
      (both-IsLost h (step o w) (step-IsOwned o w v.owned) (step-Kept v o))

take-IsLost :
    (w : Objects) (x old h : ℕ) (p : Option ℕ)
    → IsOwned w
    → w.self x ≡ some (some h)
    → w.self old ≡ some p
    → (y : ℕ) → (take x old p w).self y ≢ some (some h)
take-IsLost w x old h p v e f y l =
    let (z, g, a, c) = take-from x old p w y h f l in ground (arith, v.sole z x h g e, a, c)

-- Where the objects own their streams, an assignment to an object that holds a stream, from any object,
-- itself too, loses that stream: whatever the program does next, it is never passed to the function that destroys it, and no
-- object ever holds it again.
pub move_assign-IsLost :
    (w : Objects) (x old h : ℕ) (p : Option ℕ)
    → IsOwned w
    → w.self x ≡ some (some h)
    → w.self old ≡ some p
    → (os : List Op) → Ensures (IsLost h) (run (move_assign x old ∷ os) w)
unfolding run step
move_assign-IsLost w x old h p v e f os =
    let q : Ensures (IsLost h) (some (move_assign_self x old (w.self x) (w.self old) w)) =
      both-IsLost h (step (move_assign x old) w) (step-IsOwned (move_assign x old) w v)
        (rw (e, f) (v.alive x h e, take-IsLost w x old h p v e f)) in
    run-IsLost h os _ q
