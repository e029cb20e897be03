-- ===== src/Wrapper/Tests.antt =====
-- Runs of the C++ classes.
use libstreamlike.Common.{ℕ, ℤ, ◌≡◌, refl, true, false, none, some, List, [], ◌∷◌, Ensures}
use libstreamlike.Stream.{Streamlike}
use libstreamlike.Wrapper.{has_read, has_tell}
use libstreamlike.Wrapper.Owner.{
  Objects, no_objects, Op, construct, move_construct, move_assign, destruct, put, run,
}
use libstreamlike.Wrapper.Owner.Held.{IsOwned, run-IsOwned}
use libstreamlike.Wrapper.Owner.Leak.{IsLost, move_assign-IsLost}
use libstreamlike.Wrapper.Owner.Release.{IsTidy, failures, run-IsTidy}

-- A stream that can only tell where it stands
abbrev telling : Streamlike ℕ ℕ ℕ
telling = record {
  read = none;
  input = none;
  write = none;
  flush = none;
  seek = none;
  tell = some (λ w. (w, ℤ.pos w));
  eof = none;
  error = none;
  length = none;
  seekable = none;
  ckp_count = none;
  ckp = none;
  ckp_offset = none;
  ckp_metadata = none;
}

has_read-telling : has_read (some telling) ≡ some false
unfolding has_read
has_read-telling = refl

has_tell-telling : has_tell (some telling) ≡ some true
unfolding has_tell
has_tell-telling = refl

-- The stream of object 0 moves to object 1; both are destructed.
abbrev moving : List Op
moving =
    construct 0 true
    ∷ construct 2 false
    ∷ move_construct 1 0
    ∷ destruct 0 true
    ∷ destruct 1 true
    ∷ []

moving-ends : Ensures (λ w. (w.live ≡ []) × (w.next ≡ 1)) (run moving no_objects)
unfolding run
moving-ends = (refl, refl)

run-IsOwned_example : Ensures IsOwned (run (construct 3 true ∷ moving) no_objects)
run-IsOwned_example = run-IsOwned (construct 3 true ∷ moving)

-- `sl_fclose` fails on the stream of the third object.
abbrev failing : List Op
failing = construct 3 true ∷ destruct 3 false ∷ moving

failing-ends : Ensures (λ w. (w.live ≡ []) × (w.stuck ≡ 0 ∷ [])) (run failing no_objects)
unfolding run
failing-ends = (refl, refl)

run-IsTidy_example : Ensures (IsTidy (failures failing)) (run failing no_objects)
run-IsTidy_example = run-IsTidy failing tt

-- One object, which holds the stream 0
abbrev one : Objects
one = record { live = 0 ∷ []; stuck = []; next = 1; self = put 0 (some (some 0)) no_objects.self }

one-IsOwned : IsOwned one
unfolding run
one-IsOwned = run-IsOwned (construct 0 true ∷ [])

-- An object that is assigned to itself
move_assign-IsLost_example : Ensures (IsLost 0) (run (move_assign 0 0 ∷ destruct 0 true ∷ []) one)
move_assign-IsLost_example =
    move_assign-IsLost one 0 0 0 (some 0) one-IsOwned refl refl (destruct 0 true ∷ [])
