-- ===== src/Common/Fault.antt =====
-- Fallible code: `none` is a fault (an access outside a block of memory), and `do` chains it.
use mathlib.Core.Option.{Option, none, some}
use mathlib.Core.Path.{◌≡◌, ap}

infixl 5 ◌>>=◌
abbrev pub ◌>>=◌ {ℓ κ} : {A : Type ℓ} {B : Type κ} → Option A → (A → Option B) → Option B
none >>= f = none
some a >>= f = f a

-- The code returns (it does not fault), and its result satisfies `P`.
abbrev pub Ensures {ℓ} : {A : Type ℓ} → (A → Type 0) → Option A → Type 0
Ensures P none = ⊥
Ensures P (some a) = P a

module _ {ℓ} {A : Type ℓ} where
  pub Ensures-map :
      (P Q : A → Type 0) → ((a : A) → P a → Q a) → (o : Option A) → Ensures P o → Ensures Q o
  Ensures-map P Q f none h = h
  Ensures-map P Q f (some a) h = f a h

  -- A step that ensures what the rest of the code relies on
  pub Ensures-bind {κ} :
      {B : Type κ} (P : A → Type 0) (Q : B → Type 0) (next : A → Option B)
      → ((a : A) → P a → Ensures Q (next a))
      → (o : Option A) → Ensures P o
      → Ensures Q (o >>= next)
  Ensures-bind P Q next f none h = absurd h
  Ensures-bind P Q next f (some a) h = f a h

  pub some_inj : (a b : A) → some a ≡ some b → a ≡ b
  some_inj a b e = ap (λ o. elim o [ none ↦ a | some x ↦ x ]) e
