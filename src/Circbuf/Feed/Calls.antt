-- ===== src/Circbuf/Feed/Calls.antt =====
-- The one or two calls of the callback that `write_some2_` makes, against what is asked for and fits.
use libstreamlike.Common.{
  ℕ, ◌+◌, ◌-◌, ◌≤◌, ◌<◌, ◌≡◌, ◌∙◌, refl, ap, arith, Bool, true, false, Bool-cases, inl, inr, List,
  Option, some, if◌then◌else◌, ◌>>=◌, min, size_mod,
}
use mathlib.Core.List.{append-nil}
use libstreamlike.Circbuf.State.{used, IsValid}
use libstreamlike.Circbuf.Feed.{Writer, Feeding, set_eof, write_step, write_and_return}
use libstreamlike.Circbuf.Feed.Step.{IsWriter, IsFed, IsStep, write_step-IsStep}

module _ {C : Type 0} (writer : Writer C) (given : C → List ℕ) (w : IsWriter writer given)
    (size roff write_len : ℕ) (s0 : Feeding C) where
  -- The number of bytes that are asked for and fit
  abbrev pub wanted : ℕ
  wanted = min write_len (size - 1 - used size roff s0.woff)

  -- What `write_some2_` leaves: it is short of `wanted` exactly when it sets `*eof_reached`.
  pub record IsSupplied (s : Feeding C) : Type 0 where
    pub fed : IsFed given size roff s0 s
    pub at_most : s.total ≤ wanted
    pub short : s.total < wanted → s.eof ≡ set_eof s0.eof
    pub whole : s.total ≡ wanted → s.eof ≡ s0.eof

  -- The code returns, and `IsSupplied` holds of what it leaves.
  abbrev pub Supplies : Option (Feeding C) → Type 0
  Supplies r = (s : Feeding C) × (r ≡ some s) × IsSupplied s

  module _ (v : IsValid size roff s0.woff) (whole0 : s0.mem.len ≡ size) (start : s0.total ≡ 0)
      (small : write_len < size_mod) where
    pub fed0 : IsFed given size roff s0 s0
    fed0 = record {
      valid = v;
      grown = omega arith;
      kept = λ i h. refl;
      gives = rw (start, append-nil);
      len_eq = refl;
    }

    used-lt : used size roff s0.woff < size
    used-lt = ground arith

    -- One call for all that is wanted
    once-IsSupplied :
        (n : ℕ) (r : Feeding C × Bool)
        → n ≡ wanted
        → IsStep writer given w size roff s0 n s0 r
        → IsSupplied r.0
    once-IsSupplied n r e t = elim (Bool-cases r.1) [
      | inl cut ↦ record {
        fed = t.fed;
        at_most = omega (arith, t.short cut);
        short = λ _. (t.short cut).1;
        whole = λ h. absurd (omega (arith, t.short cut));
      }
      | inr full ↦ record {
        fed = t.fed;
        at_most = omega (arith, t.whole full);
        short = λ h. absurd (omega (arith, t.whole full));
        whole = λ _. (t.whole full).1;
      }
    ]

    -- A first call that is short
    cut-IsSupplied :
        (n m : ℕ) (r : Feeding C × Bool)
        → n + m ≡ wanted
        → IsStep writer given w size roff s0 n s0 r
        → r.1 ≡ true
        → IsSupplied r.0
    cut-IsSupplied n m r e t cut = record {
      fed = t.fed;
      at_most = omega (arith, t.short cut);
      short = λ _. (t.short cut).1;
      whole = λ h. absurd (omega (arith, t.short cut));
    }

    -- A second call for the rest
    rest-IsSupplied :
        (n m : ℕ) (r r' : Feeding C × Bool)
        → n + m ≡ wanted
        → IsStep writer given w size roff s0 n s0 r
        → r.1 ≡ false
        → IsStep writer given w size roff s0 m r.0 r'
        → IsSupplied r'.0
    rest-IsSupplied n m r r' e t full t' = elim (Bool-cases r'.1) [
      | inl cut ↦ record {
        fed = t'.fed;
        at_most = omega (arith, t.whole full, t'.short cut);
        short = λ _. (t'.short cut).1 ∙ ap set_eof (t.whole full).1;
        whole = λ h. absurd (omega (arith, t.whole full, t'.short cut));
      }
      | inr all ↦ record {
        fed = t'.fed;
        at_most = omega (arith, t.whole full, t'.whole all);
        short = λ h. absurd (omega (arith, t.whole full, t'.whole all));
        whole = λ _. (t'.whole all).1 ∙ (t.whole full).1;
      }
    ]

    pub feed-once :
        (n : ℕ)
        → n ≡ wanted
        → s0.woff + n ≤ size
        → Supplies (write_and_return writer size s0.woff n s0)
    feed-once n e ends =
        let (r, q, t) =
          write_step-IsStep writer given w size roff s0 n s0 v fed0 whole0 ends
            (omega (arith, used-lt)) s0.woff refl in
        rw q (r.0, refl, once-IsSupplied n r e t)

    feed-rest :
        (n m : ℕ) (r : Feeding C × Bool)
        → n + m ≡ wanted
        → s0.woff + n ≡ size
        → m < s0.woff
        → IsStep writer given w size roff s0 n s0 r
        → r.1 ≡ false
        → Supplies (write_and_return writer size 0 m r.0)
    feed-rest n m r e ends short t full =
        let (r', q, t') =
          write_step-IsStep writer given w size roff s0 m r.0 v t.fed whole0
            (ground (arith, t.whole full)) (omega (arith, used-lt, t.whole full)) 0
            (ground (arith, t.whole full)) in
        rw q (r'.0, refl, rest-IsSupplied n m r r' e t full t')

    after_first :
        (n m : ℕ) (r : Feeding C × Bool)
        → n + m ≡ wanted
        → s0.woff + n ≡ size
        → m < s0.woff
        → IsStep writer given w size roff s0 n s0 r
        → Supplies (if r.1 then some r.0 else write_and_return writer size 0 m r.0)
    after_first n m r e ends short t = elim (Bool-cases r.1) [
      | inl cut ↦ rw cut (r.0, refl, cut-IsSupplied n m r e t cut)
      | inr full ↦ rw full (feed-rest n m r e ends short t full)
    ]

    -- A call up to the end of the block, and one from its start if that was not short
    pub feed-twice :
        (n m : ℕ)
        → n + m ≡ wanted
        → s0.woff + n ≡ size
        → m < s0.woff
        → Supplies (
            write_step writer size s0.woff n s0 >>= λ r.
            if r.1 then some r.0 else write_and_return writer size 0 m r.0)
    feed-twice n m e ends short =
        let (r, q, t) =
          write_step-IsStep writer given w size roff s0 n s0 v fed0 whole0 (omega arith)
            (omega (arith, used-lt)) s0.woff refl in
        rw q (after_first n m r e ends short t)

    -- Nothing is called where nothing fits.
    pub full-IsSupplied : wanted ≡ 0 → IsSupplied s0
    full-IsSupplied e = record {
      fed = fed0;
      at_most = omega arith;
      short = λ h. absurd (omega arith);
      whole = λ _. refl;
    }
