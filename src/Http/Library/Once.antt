-- ===== src/Http/Library/Once.antt =====
-- cURL is set up and cleaned up by turns.
use libstreamlike.Common.{
  ℕ, ◌≡◌, ◌≢◌, ◌∙◌, refl, sym, ap, arith, inl, inr, ◌⊎◌, Bool, true, false, Bool-cases, ◌==◌,
  if-both, if-true, if-false, if◌then◌else◌, Option, none, some, ◌>>=◌, some_inj, subst, List, [],
  ◌∷◌,
}
use libstreamlike.Http.Library.{
  Op, At, outside, testing, calling, setting, unlocking, Library, fresh, is_init, is_needed, move,
  step_at, run, follow,
}

-- What the thread does that holds the mutex
abbrev doing : Option ℕ → (ℕ → At) → At
doing none at = outside
doing (some t) at = at t

-- How `curl_global_init_done` and what cURL keeps agree
abbrev Agrees : At → Bool → Bool → Type 0
Agrees (calling o) done on = (on ≡ done) × (is_needed o done ≡ true)
Agrees (setting o) done on = on ≡ is_init o
Agrees _ done on = on ≡ done

none_ne : {t : ℕ} → ¬ (none ≡ some t)
none_ne e = cc

record IsLocked (s : Library) : Type 0 where
  owns : (t : ℕ) → s.at t ≢ outside → s.owner ≡ some t
  on : Bool
  followed : follow s.calls ≡ some on
  agrees : Agrees (doing s.owner s.at) s.done on

move-same : (t : ℕ) (a : At) (at : ℕ → At) → move t a at t ≡ a
move-same t a at = if-true (t == t) a (at t) (ground arith)

move-other : (t : ℕ) (a : At) (at : ℕ → At) (u : ℕ) → (u == t) ≡ false → move t a at u ≡ at u
move-other t a at u e = if-false (u == t) a (at u) e

module _ (s : Library) (v : IsLocked s) (t : ℕ) where
  -- A step of the thread that holds the mutex
  holder-IsLocked :
      (a : At) (done on : Bool) (calls : List Op)
      → s.owner ≡ some t
      → follow calls ≡ some on
      → Agrees a done on
      → IsLocked (record { done = done; owner = s.owner; calls = calls; at = move t a s.at })
  holder-IsLocked a done on calls e f g = record {
    owns = λ u n. elim (Bool-cases (u == t)) [
      | inl q ↦ e ∙ ap (λ k. some k) (sym (ground (arith, q)))
      | inr q ↦ v.owns u (λ x. n (move-other t a s.at u q ∙ x))
    ];
    on = on;
    followed = f;
    agrees = rw (e, move-same t a s.at) g;
  }

  released-IsLocked :
      s.owner ≡ some t
      → v.on ≡ s.done
      → IsLocked (record s { owner = none; at = move t outside s.at })
  released-IsLocked e g = record {
    owns = λ u n. elim (Bool-cases (u == t)) [
      | inl q ↦ absurd (n (if-true (u == t) outside (s.at u) q))
      | inr q ↦
          let same : t ≡ u =
            some_inj t u (sym e ∙ v.owns u (λ x. n (move-other t outside s.at u q ∙ x))) in
          absurd (ground (arith, q, same))
    ];
    on = v.on;
    followed = v.followed;
    agrees = g;
  }

  entered-IsLocked :
      (o : Op)
      → s.owner ≡ none
      → IsLocked (record s { owner = some t; at = move t (testing o) s.at })
  entered-IsLocked o e = record {
    owns = λ u n. elim (Bool-cases (u == t)) [
      | inl q ↦ ap (λ k. some k) (sym (ground (arith, q)))
      | inr q ↦ absurd (none_ne (sym e ∙ v.owns u (λ x. n (move-other t (testing o) s.at u q ∙ x))))
    ];
    on = v.on;
    followed = v.followed;
    agrees =
        rw (move-same t (testing o) s.at)
          (subst (λ w. Agrees (doing w s.at) s.done v.on) e v.agrees);
  }

  -- What the holder of the mutex agrees to
  held-Agrees : (a : At) → s.owner ≡ some t → s.at t ≡ a → Agrees a s.done v.on
  held-Agrees a e f = subst (λ b. Agrees b s.done v.on) (ap (λ w. doing w s.at) e ∙ f) v.agrees

  holder : (a : At) → s.at t ≡ a → a ≢ outside → s.owner ≡ some t
  holder a e n = v.owns t (λ x. n (sym e ∙ x))

  called :
      (o : Op)
      → (v.on ≡ s.done) × (is_needed o s.done ≡ true)
      → follow (o ∷ s.calls) ≡ some (is_init o)
  called o g =
      ap (λ w. w >>= λ on. if is_needed o on then some (is_init o) else none) v.followed
      ∙ if-true (is_needed o v.on) (some (is_init o)) none (ap (is_needed o) g.0 ∙ g.1)

  step-IsLocked :
      (o : Op) (a : At) (w : Option ℕ) → s.at t ≡ a → s.owner ≡ w → IsLocked (step_at t o a w s)
  step-IsLocked o outside none e f = entered-IsLocked o f
  step-IsLocked o outside (some u) e f = v
  step-IsLocked _ (testing o) w e f =
      let h = holder (testing o) e (λ x. absurd (grind (arith, x))) in
      let g = held-Agrees (testing o) h e in
      holder-IsLocked (if is_needed o s.done then calling o else unlocking) s.done v.on s.calls h
        v.followed (if-both (λ a. Agrees a s.done v.on) (is_needed o s.done) (λ n. (g, n)) (λ n. g))
  step-IsLocked _ (calling o) w e f =
      let h = holder (calling o) e (λ x. absurd (grind (arith, x))) in
      holder-IsLocked (setting o) s.done (is_init o) (o ∷ s.calls) h
        (called o (held-Agrees (calling o) h e)) refl
  step-IsLocked _ (setting o) w e f =
      let h = holder (setting o) e (λ x. absurd (grind (arith, x))) in
      holder-IsLocked unlocking (is_init o) v.on s.calls h v.followed (held-Agrees (setting o) h e)
  step-IsLocked _ unlocking w e f =
      let h = holder unlocking e (λ x. absurd (grind (arith, x))) in
      released-IsLocked h (held-Agrees unlocking h e)

run-kept : (xs : List (ℕ × Op)) (s : Library) → IsLocked s → IsLocked (run xs s)
unfolding run
run-kept [] s v = v
run-kept ((t, o) ∷ xs) s v = run-kept xs _ (step-IsLocked s v t o (s.at t) s.owner refl refl)

fresh-IsLocked : IsLocked fresh
fresh-IsLocked = record {
  owns = λ t n. absurd (n refl);
  on = false;
  followed = refl;
  agrees = refl;
}

abbrev pub is_held : Option ℕ → Bool
is_held none = false
is_held (some t) = true

-- cURL was never set up twice nor cleaned up without having been set up, and the flag says whether it is
-- set up, or a thread holds the mutex.
pub IsByTurns : Library → Type 0
IsByTurns s = (on : Bool) × (follow s.calls ≡ some on) × ((on ≡ s.done) ⊎ (is_held s.owner ≡ true))

free_or_held :
    (w : Option ℕ) (at : ℕ → At) (done on : Bool)
    → Agrees (doing w at) done on
    → (on ≡ done) ⊎ (is_held w ≡ true)
free_or_held none at done on g = inl g
free_or_held (some t) at done on g = inr refl

-- However the steps of threads interleave that call `sl_http_library_init` and `sl_http_library_cleanup` in
-- whatever order, the calls of `curl_global_init` and `curl_global_cleanup` take turns, the former
-- first; and `curl_global_init_done` says which was the last, or a thread holds the mutex.
pub run-IsByTurns : (xs : List (ℕ × Op)) → IsByTurns (run xs fresh)
unfolding IsByTurns
run-IsByTurns xs =
    let s = run xs fresh in
    let v = run-kept xs fresh fresh-IsLocked in
    (v.on, v.followed, free_or_held s.owner s.at s.done v.on v.agrees)
