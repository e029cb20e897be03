-- ===== src/Wrapper/Owner.antt =====
-- src/streamlikexx.cpp, src/streamlike/filexx.cpp and src/streamlike/httpxx.cpp: which object owns which
-- stream. An object of `StreamlikeFile` or `StreamlikeHttp` owns the stream behind its `self`.
pub mod Held
pub mod Leak
pub mod Release
use libstreamlike.Common.{
  ℕ, suc, Bool, true, false, ◌==◌, ◌||◌, if◌then◌else◌, Option, none, some, ◌>>=◌, List, [], ◌∷◌,
}

-- A stream is known by a number, and so is a variable. `live` are the streams that have been made and not
-- yet been passed to the function that destroys it, and `stuck` those for which that function failed;
-- `self x` is none where `x` is no object, and the field `self` of the object where it is.
pub record Objects : Type 0 where
  pub live : List ℕ
  pub stuck : List ℕ
  pub next : ℕ
  pub self : ℕ → Option (Option ℕ)

abbrev pub no_objects : Objects
no_objects = record { live = []; stuck = []; next = 0; self = λ _. none }

abbrev pub has : ℕ → List ℕ → Bool
has h [] = false
has h (k ∷ ks) = (h == k) || has h ks

abbrev pub without : ℕ → List ℕ → List ℕ
without h [] = []
without h (k ∷ ks) = if h == k then without h ks else k ∷ without h ks

-- `sl_fclose`, `sl_http_destroy` or `sl_buffer_destroy` on a stream; `ok` says whether it returns 0. Where
-- it does not, some of the stream is left, and the destructors do not look at the code. `none` is a
-- second call on one stream.
abbrev pub destroy_self : ℕ → Bool → Objects → Option Objects
destroy_self h ok w =
    if has h w.live
    then some (record w { live = without h w.live; stuck = if ok then w.stuck else h ∷ w.stuck })
    else none

abbrev pub put : ℕ → Option (Option ℕ) → (ℕ → Option (Option ℕ)) → ℕ → Option (Option ℕ)
put x o self y = if y == x then o else self y

-- `self = old.self; old.self = nullptr;`
abbrev pub take : ℕ → ℕ → Option ℕ → Objects → Objects
take x old h w = record w { self = put old (some none) (put x (some h) w.self) }

-- What a program does with its objects; `ok` says whether the C function makes a stream, or whether the
-- one that destroys it returns 0.
pub data Op : Type 0 where
  construct : (x : ℕ) (ok : Bool) → Op
  move_construct move_assign : (x old : ℕ) → Op
  destruct : (x : ℕ) (ok : Bool) → Op

-- A constructor, where `x` is no object yet; it throws where the C function returns NULL.
abbrev pub construct_self : ℕ → Bool → Option (Option ℕ) → Objects → Objects
construct_self x ok none w =
    if ok
    then record {
      live = w.next ∷ w.live;
      stuck = w.stuck;
      next = suc w.next;
      self = put x (some (some w.next)) w.self;
    }
    else w
construct_self x ok (some o) w = w

-- The constructor from another object, where `x` is none and `old` is one
abbrev pub move_construct_self : ℕ → ℕ → Option (Option ℕ) → Option (Option ℕ) → Objects → Objects
move_construct_self x old none (some h) w = take x old h w
move_construct_self x old _ _ w = w

-- `operator=`, where both are objects
abbrev pub move_assign_self : ℕ → ℕ → Option (Option ℕ) → Option (Option ℕ) → Objects → Objects
move_assign_self x old (some h') (some h) w = take x old h w
move_assign_self x old _ _ w = w

-- The destructor of an object
abbrev pub destruct_self : ℕ → Bool → Option (Option ℕ) → Objects → Option Objects
destruct_self x ok none w = some w
destruct_self x ok (some none) w = some (record w { self = put x none w.self })
destruct_self x ok (some (some h)) w =
    destroy_self h ok w >>= λ w'. some (record w' { self = put x none w.self })

unfoldable pub step : Op → Objects → Option Objects
step (construct x ok) w = some (construct_self x ok (w.self x) w)
step (move_construct x old) w = some (move_construct_self x old (w.self x) (w.self old) w)
step (move_assign x old) w = some (move_assign_self x old (w.self x) (w.self old) w)
step (destruct x ok) w = destruct_self x ok (w.self x) w

unfoldable pub run : List Op → Objects → Option Objects
unfolding step
run [] w = some w
run (o ∷ os) w = step o w >>= λ w'. run os w'
