-- ===== src/Buffer/Threads/Alone.antt =====
-- The filler alone, once reading is closed and while its consumer makes no step.
use libstreamlike.Common.{
  ℕ, suc, ◌≤◌, ◌<◌, ◌≡◌, ◌∙◌, sym, ap, subst, arith, Bool, true, false, not, ltb, ◌&&◌, if-both,
  if◌then◌else◌, Ensures, size_mod,
}
use libstreamlike.Circbuf.State.{IsCircbuf}
use libstreamlike.Circbuf.Threads.{no_room}
use libstreamlike.Buffer.Machine.{Inner, System, ConAt, FilAt, is_locked, wake_data}
use libstreamlike.Buffer.Threads.{fil_to, fil_step}
use libstreamlike.Buffer.Threads.Source.{IsInner}
use libstreamlike.Buffer.Threads.Round.{round-Ensures}
use libstreamlike.Buffer.Threads.Fill.{close_write-eq}

-- Reading is closed, the flag of the request is `asked`, and the consumer stands at `con`; the filler has
-- at most `n` steps to take, by the measure `m`.
pub record IsAlone {W : Type 0} (m : FilAt → ℕ) (asked : Bool) (con : ConAt) (n : ℕ) (s : System W)
    : Type 0 where
  pub sound : IsCircbuf s.stream.cbuf
  pub small : s.stream.step_size < size_mod
  pub put_le : s.fil.written ≤ s.stream.step_size
  pub closed : s.stream.cbuf.rdone ≡ true
  pub flag_eq : s.stream.seek_requested ≡ asked
  pub con_at : s.con.pc ≡ con
  pub left : m s.fil.pc ≤ n
  pub few : n ≤ 9

module _ {W : Type 0} {content : ℕ → ℕ} {at : W → ℕ} (inner : Inner W)
    (i : IsInner inner content at) {m : FilAt → ℕ} {asked : Bool} {con : ConAt}
    (unlocked : is_locked con ≡ false) (stays : wake_data con ≡ con) {n : ℕ} {s : System W}
    (h : IsAlone m asked con (suc n) s) where
  open h use {sound, small, put_le, closed, flag_eq, con_at, few}

  abbrev Next : System W → Type 0
  Next = IsAlone m asked con n

  unlocked_now : is_locked s.con.pc ≡ false
  unlocked_now = ap is_locked con_at ∙ unlocked

  pub fil_to-IsAlone : (pc : FilAt) → m pc ≤ n → Next (fil_to s pc)
  fil_to-IsAlone pc l = record {
    sound = sound;
    small = small;
    put_le = put_le;
    closed = closed;
    flag_eq = flag_eq;
    con_at = con_at;
    left = l;
    few = omega (arith, few);
  }

  -- A test of what holds or does not
  pub taken : (b : Bool) (p q : FilAt) → b ≡ true → m p ≤ n → Next (fil_to s (if b then p else q))
  taken true p q e l = fil_to-IsAlone p l
  taken false p q e l = absurd (grind (arith, e))

  pub passed : (b : Bool) (p q : FilAt) → b ≡ false → m q ≤ n → Next (fil_to s (if b then p else q))
  passed true p q e l = absurd (grind (arith, e))
  passed false p q e l = fil_to-IsAlone q l

  pub round-IsAlone : m FilAt.head ≤ n → Ensures Next (fil_step inner FilAt.round s)
  round-IsAlone l = round-Ensures inner content at i s sound put_le small Next (λ r t. record {
    sound = t.sound;
    small = small;
    put_le = omega (arith, put_le, t.at_most);
    closed = ap (λ x. x.rdone) t.same ∙ closed;
    flag_eq = flag_eq;
    con_at = ap wake_data con_at ∙ stays;
    left = l;
    few = omega (arith, few);
  })

  -- The section that closes writing
  pub short-IsAlone : m FilAt.test ≤ n → Ensures Next (fil_step inner FilAt.short s)
  unfolding fil_step
  short-IsAlone l =
      if-both (Ensures Next) (is_locked s.con.pc) (λ t. absurd (grind (arith, t, unlocked_now)))
        (λ _.
          subst
            (λ c. Next (record s {
              stream = record s.stream { cbuf = c };
              con = record s.con { pc = wake_data s.con.pc };
              fil = record s.fil {
                pc = if s.stream.cbuf.rdone then FilAt.test else FilAt.asleep_eof;
              };
            }))
            (sym (close_write-eq s.stream.cbuf))
            (record {
              sound = record { whole = sound.whole; valid = sound.valid };
              small = small;
              put_le = put_le;
              closed = closed;
              flag_eq = flag_eq;
              con_at = ap wake_data con_at ∙ stays;
              left = rw closed l;
              few = omega (arith, few);
            }))

  pub start-IsAlone : m FilAt.test ≤ n → Ensures Next (fil_step inner FilAt.start s)
  unfolding fil_step
  start-IsAlone l =
      if-both (Ensures Next) (is_locked s.con.pc) (λ t. absurd (grind (arith, t, unlocked_now)))
        (λ _. record {
          sound = sound;
          small = small;
          put_le = put_le;
          closed = closed;
          flag_eq = flag_eq;
          con_at = con_at;
          left = l;
          few = omega (arith, few);
        })

  pub enter-IsAlone : m FilAt.short ≤ n → Ensures Next (fil_step inner FilAt.enter s)
  unfolding fil_step
  enter-IsAlone l = record {
    sound = sound;
    small = small;
    put_le = omega arith;
    closed = closed;
    flag_eq = flag_eq;
    con_at = con_at;
    left = rw closed l;
    few = omega (arith, few);
  }

  pub head-IsAlone :
      m FilAt.short ≤ n → m FilAt.test ≤ n → Ensures Next (fil_step inner FilAt.head s)
  unfolding fil_step
  head-IsAlone l k =
      passed (ltb s.fil.written s.stream.step_size && not s.stream.cbuf.rdone && not s.fil.eof)
        FilAt.wait (if ltb s.fil.written s.stream.step_size then FilAt.short else FilAt.test)
        (ground (arith, closed))
        (if-both (λ pc. m pc ≤ n) (ltb s.fil.written s.stream.step_size) (λ _. l) (λ _. k))

  pub wait-IsAlone : m FilAt.gate ≤ n → Ensures Next (fil_step inner FilAt.wait s)
  unfolding fil_step
  wait-IsAlone l =
      passed (no_room s.stream.cbuf && not s.stream.cbuf.rdone) _ _ (ground (arith, closed)) l

  pub eof_woken-IsAlone : m FilAt.test ≤ n → Ensures Next (fil_step inner FilAt.eof_woken s)
  unfolding fil_step
  eof_woken-IsAlone l =
      if-both (Ensures Next) (is_locked s.con.pc) (λ t. absurd (grind (arith, t, unlocked_now)))
        (λ _. taken s.stream.cbuf.rdone _ _ closed l)

  pub done-IsAlone :
      FilAt.done ≡ s.fil.pc → m FilAt.done ≤ n → Ensures Next (fil_step inner FilAt.done s)
  unfolding fil_step
  done-IsAlone e l = record {
    sound = sound;
    small = small;
    put_le = put_le;
    closed = closed;
    flag_eq = flag_eq;
    con_at = con_at;
    left = subst (λ pc. m pc ≤ n) e l;
    few = omega (arith, few);
  }
