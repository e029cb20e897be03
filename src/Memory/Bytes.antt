-- ===== src/Memory/Bytes.antt =====
-- The bytes of a stretch of memory, as a list.
use libstreamlike.Common.{
  ℕ, zero, suc, ◌+◌, ◌<◌, ◌≡◌, refl, ap, ap₂, ◌∙◌, List, [], ◌∷◌, ◌++◌, arith,
}

-- `f 0`, `f 1`, … `f (n - 1)`
abbrev pub bytes {ℓ} : {A : Type ℓ} → (ℕ → A) → ℕ → List A
bytes f zero = []
bytes f (suc n) = f 0 ∷ bytes (λ i. f (suc i)) n

module _ {ℓ} {A : Type ℓ} where
  abbrev pub length : List A → ℕ
  length [] = 0
  length (x ∷ xs) = suc (length xs)

  abbrev pub drop : ℕ → List A → List A
  drop zero xs = xs
  drop (suc n) [] = []
  drop (suc n) (x ∷ xs) = drop n xs

  abbrev pub take : ℕ → List A → List A
  take zero xs = []
  take (suc n) [] = []
  take (suc n) (x ∷ xs) = x ∷ take n xs

  pub take-append : (xs ys : List A) → take (length xs) (xs ++ ys) ≡ xs
  take-append [] ys = refl
  take-append (x ∷ xs) ys = ap (◌∷◌ x) (take-append xs ys)

  pub length-bytes : (f : ℕ → A) (n : ℕ) → length (bytes f n) ≡ n
  length-bytes f zero = refl
  length-bytes f (suc n) = ap suc (length-bytes (λ i. f (suc i)) n)

  pub length-append : (xs ys : List A) → length (xs ++ ys) ≡ length xs + length ys
  length-append [] ys = omega arith
  length-append (x ∷ xs) ys = omega (arith, length-append xs ys)

  pub drop-append : (xs ys : List A) → drop (length xs) (xs ++ ys) ≡ ys
  drop-append [] ys = refl
  drop-append (x ∷ xs) ys = drop-append xs ys

  pub bytes-ext : (f g : ℕ → A) (n : ℕ) → ((i : ℕ) → i < n → f i ≡ g i) → bytes f n ≡ bytes g n
  bytes-ext f g zero h = refl
  bytes-ext f g (suc n) h =
      ap₂ ◌∷◌ (h 0 (omega arith))
        (bytes-ext (λ i. f (suc i)) (λ i. g (suc i)) n (λ i p. h (suc i) (omega arith)))

  -- A stretch of `m + n` bytes is one of `m` and one of `n`, each read through its own function.
  pub bytes-append :
      (f g h : ℕ → A) (m n k : ℕ)
      → m + n ≡ k
      → ((i : ℕ) → i < m → f i ≡ h i)
      → ((i : ℕ) → i < n → g i ≡ h (m + i))
      → bytes f m ++ bytes g n ≡ bytes h k
  bytes-append f g h zero n k e p q =
      bytes-ext g h n (λ i l. q i l ∙ ap h (omega arith)) ∙ ap (bytes h) (omega arith)
  bytes-append f g h (suc m) n zero e p q = absurd (omega arith)
  bytes-append f g h (suc m) n (suc k) e p q = ap₂ ◌∷◌ (p 0 (omega arith)) (
      bytes-append (λ i. f (suc i)) g (λ i. h (suc i)) m n k (omega arith)
        (λ i l. p (suc i) (omega arith)) (λ i l. q i l ∙ ap h (omega arith)))

  pub drop-bytes :
      (f g : ℕ → A) (m n k : ℕ)
      → m + n ≡ k
      → ((i : ℕ) → i < n → g i ≡ f (m + i))
      → bytes g n ≡ drop m (bytes f k)
  drop-bytes f g zero n k e q =
      bytes-ext g f n (λ i l. q i l ∙ ap f (omega arith)) ∙ ap (bytes f) (omega arith)
  drop-bytes f g (suc m) n zero e q = absurd (omega arith)
  drop-bytes f g (suc m) n (suc k) e q =
      drop-bytes (λ i. f (suc i)) g m n k (omega arith) (λ i l. q i l ∙ ap f (omega arith))

  tail : List A → List A
  tail [] = []
  tail (x ∷ xs) = xs

  head_or : A → List A → A
  head_or a [] = a
  head_or a (x ∷ xs) = x

  -- If a stretch of `m` bytes and a list make a stretch of `k`, the bytes are its first `m`, and the
  -- list is the rest, which may be read through its own function.
  pub bytes-split :
      (f g h : ℕ → A) (m n k : ℕ) (l : List A)
      → m + n ≡ k
      → ((i : ℕ) → i < n → g (m + i) ≡ h i)
      → bytes f m ++ l ≡ bytes g k
      → (bytes f m ≡ bytes g m) × (l ≡ bytes h n)
  unfolding tail head_or
  bytes-split f g h zero n k l e q p =
      (refl, p ∙ ap (bytes g) (omega arith) ∙ bytes-ext g h n (λ i z. ap g (omega arith) ∙ q i z))
  bytes-split f g h (suc m) n zero l e q p = absurd (omega arith)
  bytes-split f g h (suc m) n (suc k) l e q p =
      let r =
        bytes-split (λ i. f (suc i)) (λ i. g (suc i)) h m n k l (omega arith)
          (λ i z. ap g (omega arith) ∙ q i z) (ap tail p) in
      (ap₂ ◌∷◌ (ap (head_or (f 0)) p) r.0, r.1)
