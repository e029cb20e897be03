-- ===== src/Http/Header/Trim.antt =====
-- What `memtrim` leaves of a stretch of text.
use libstreamlike.Common.{
  ℕ, zero, suc, ◌+◌, ◌-◌, ◌≤◌, ◌<◌, ◌≡◌, ◌≢◌, ◌↔◌, refl, arith, inl, inr, Bool, true, false,
  Bool-cases, ltb, ap, ◌∙◌,
}
use libstreamlike.Memory.{Block}
use libstreamlike.Http.Header.{is_space, trim_end, trim_begin, Trimmed, memtrim}

-- `n'` is where the white space at the end of the first `n` bytes at `p` begins.
record IsEnd (b : Block) (p n n' : ℕ) : Type 0 where
  le : n' ≤ n
  behind : (i : ℕ) → n' ≤ i → i < n → is_space (b.at (p + i)) ≡ true
  ink : n' ≢ 0 → is_space (b.at (p + (n' - 1))) ≡ false

module _ (b : Block) where
  -- The byte at one place, named in two ways
  same_place : (i j : ℕ) {x : Bool} → i ≡ j → is_space (b.at j) ≡ x → is_space (b.at i) ≡ x
  same_place i j e h = ap (λ k. is_space (b.at k)) e ∙ h

  behind_suc :
      (p n n' : ℕ)
      → is_space (b.at (p + n)) ≡ true
      → IsEnd b p n n'
      → (i : ℕ) → n' ≤ i
      → i < suc n
      → is_space (b.at (p + i)) ≡ true
  behind_suc p n n' sp k i l h = elim (Bool-cases (ltb i n)) [
    | inl lt ↦ k.behind i l (ground arith)
    | inr ge ↦ same_place (p + i) (p + n) (ground arith) sp
  ]

  trim_end-IsEnd : (p n : ℕ) → IsEnd b p n (trim_end b p n)
  trim_end-IsEnd p zero = record {
    le = omega arith;
    behind = λ i l h. absurd (omega arith);
    ink = λ h. absurd (h refl);
  }
  trim_end-IsEnd p (suc n) = elim (Bool-cases (is_space (b.at (p + n)))) [
    | inl sp ↦
        let k = trim_end-IsEnd p n in
        rw sp (record { le = omega (arith, k.le); behind = behind_suc p n _ sp k; ink = k.ink })
    | inr ns ↦ rw ns (record {
      le = omega arith;
      behind = λ i l h. absurd (omega arith);
      ink = λ h. same_place _ (p + n) (omega arith) ns;
    })
  ]

-- `n'` is where the white space at the start of the `n` bytes at `p` ends.
record IsBegin (b : Block) (p n n' : ℕ) : Type 0 where
  le : n' ≤ n
  before : (i : ℕ) → i < n' → is_space (b.at (p + i)) ≡ true
  ink : n' ≢ n → is_space (b.at (p + n')) ≡ false

module _ (b : Block) where
  before_suc :
      (p n n' : ℕ)
      → is_space (b.at p) ≡ true
      → IsBegin b (p + 1) n n'
      → (i : ℕ) → i < suc n'
      → is_space (b.at (p + i)) ≡ true
  before_suc p n n' sp k zero h = same_place b (p + 0) p (omega arith) sp
  before_suc p n n' sp k (suc i) h =
      same_place b (p + suc i) (p + 1 + i) (omega arith) (k.before i (omega arith))

  trim_begin-IsBegin : (p n : ℕ) → IsBegin b p n (trim_begin b p n)
  trim_begin-IsBegin p zero = record {
    le = omega arith;
    before = λ i h. absurd (omega arith);
    ink = λ h. absurd (h refl);
  }
  trim_begin-IsBegin p (suc n) = elim (Bool-cases (is_space (b.at p))) [
    | inl sp ↦
        let k = trim_begin-IsBegin (p + 1) n in
        rw sp (record {
          le = omega (arith, k.le);
          before = before_suc p n _ sp k;
          ink = λ h. same_place b _ _ (omega arith) (k.ink (omega arith));
        })
    | inr ns ↦ rw ns (record {
      le = omega arith;
      before = λ i h. absurd (omega arith);
      ink = λ h. same_place b _ p (omega arith) ns;
    })
  ]

-- `t` is the stretch from the first to the last byte that is no white space, of the `size` bytes at
-- `mem`; it is empty, and said to be, if all of them are white space.
pub record IsTrimmed (b : Block) (mem size : ℕ) (t : Trimmed) : Type 0 where
  pub begin_le : mem ≤ t.begin
  pub le : t.begin ≤ t.end
  pub end_le : t.end ≤ mem + size
  pub before : (i : ℕ) → mem ≤ i → i < t.begin → is_space (b.at i) ≡ true
  pub behind : (i : ℕ) → t.end ≤ i → i < mem + size → is_space (b.at i) ≡ true
  pub blank_iff : (t.blank ≡ true) ↔ (t.begin ≡ t.end)
  pub first : t.begin ≢ t.end → is_space (b.at t.begin) ≡ false
  pub last : t.begin ≢ t.end → is_space (b.at (t.end - 1)) ≡ false

-- `memtrim` cuts off the white space at both ends of the text, and no more.
pub memtrim-IsTrimmed : (b : Block) (mem size : ℕ) → IsTrimmed b mem size (memtrim b mem size)
unfolding memtrim
memtrim-IsTrimmed b mem size =
    let e = trim_end-IsEnd b mem size in
    let k = trim_begin-IsBegin b mem (trim_end b mem size) in
    record {
      begin_le = omega arith;
      le = omega (arith, k.le);
      end_le = omega (arith, e.le);
      before = λ i l h.
          same_place b i (mem + (i - mem)) (omega arith) (k.before (i - mem) (omega arith));
      behind = λ i l h.
          same_place b i (mem + (i - mem)) (omega arith)
            (e.behind (i - mem) (omega arith) (omega arith));
      blank_iff = ground arith;
      first = λ h. k.ink (omega arith);
      last = λ h. same_place b _ _ (omega arith) (e.ink (omega arith));
    }
