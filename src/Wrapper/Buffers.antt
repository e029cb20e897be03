-- ===== src/Wrapper/Buffers.antt =====
-- src/streamlike/buffer.hpp and src/streamlike/bufferxx.cpp: objects of `StreamlikeBuffer`, each of which
-- owns a buffered stream and, in `mInnerStream`, the object that owns the stream behind it.
pub mod Alive
pub mod Built
pub mod Outlives
mod Tests
use libstreamlike.Common.{
  ℕ, suc, ◌+◌, ◌*◌, Bool, true, false, ◌==◌, if◌then◌else◌, Option, none, some, ◌>>=◌, List, [],
  ◌∷◌,
}
use libstreamlike.Wrapper.Owner.{
  Objects, no_objects, Op, construct, move_construct, move_assign, destruct, construct_self,
  destruct_self, take, step,
}

-- The variables of the program are numbered in threes: an object of `StreamlikeFile` or `StreamlikeHttp`, an
-- object of `StreamlikeBuffer`, and the `mInnerStream` of the latter.
abbrev pub plain : ℕ → ℕ
plain x = 3 * x

abbrev pub outer : ℕ → ℕ
outer x = 3 * x + 1

abbrev pub member : ℕ → ℕ
member x = 3 * x + 2

-- `inner b` is the stream that the buffered stream `b` reads from.
pub record Buffers : Type 0 where
  pub objects : Objects
  pub inner : ℕ → Option ℕ

abbrev pub no_buffers : Buffers
no_buffers = record { objects = no_objects; inner = λ b. none }

-- What a program does; `ok` says whether the C function makes a stream, or whether `sl_buffer_destroy`
-- returns 0, and `inner_ok` whether the function does that destroys the inner stream.
pub data BufferOp : Type 0 where
  plainly : Op → BufferOp
  construct_buffer : (x old : ℕ) (ok : Bool) → BufferOp
  move_construct_buffer move_assign_buffer : (x old : ℕ) → BufferOp
  destruct_buffer : (x : ℕ) (ok inner_ok : Bool) → BufferOp

abbrev pub on_plain : Op → Op
on_plain (construct x ok) = construct (plain x) ok
on_plain (move_construct x old) = move_construct (plain x) (plain old)
on_plain (move_assign x old) = move_assign (plain x) (plain old)
on_plain (destruct x ok) = destruct (plain x) ok

-- A new stream over the stream `below`, or over none
abbrev pub over : ℕ → Option ℕ → (ℕ → Option ℕ) → ℕ → Option ℕ
over b below inner c = if c == b then below else inner c

-- The constructor, where `x` is no object yet and `old` is one; where `old` has lost its stream, or the C
-- function returns NULL, it throws before `old` is moved.
abbrev pub construct_buffer_self :
    ℕ → ℕ → Bool → Option (Option ℕ) → Option (Option ℕ) → Option (Option ℕ) → Buffers → Buffers
construct_buffer_self x old ok none none (some (some h)) s =
    if ok
    then record {
      objects = take (member x) (plain old) (some h) (construct_self (outer x) true none s.objects);
      inner = over s.objects.next (some h) s.inner;
    }
    else s
construct_buffer_self x old ok _ _ _ s = s

-- The base is moved, and then the member.
abbrev pub move_both : ℕ → ℕ → Option ℕ → Option ℕ → Buffers → Buffers
move_both x old b h s = record s {
  objects = take (member x) (member old) h (take (outer x) (outer old) b s.objects);
}

-- The constructor from another object, where `x` is none and `old` is one
abbrev pub move_construct_buffer_self :
    ℕ
    → ℕ
    → (Option (Option ℕ) × Option (Option ℕ))
    → (Option (Option ℕ) × Option (Option ℕ))
    → Buffers
    → Buffers
move_construct_buffer_self x old (none, none) (some b, some h) s = move_both x old b h s
move_construct_buffer_self x old _ _ s = s

-- `operator=`, where both are objects
abbrev pub move_assign_buffer_self :
    ℕ
    → ℕ
    → (Option (Option ℕ) × Option (Option ℕ))
    → (Option (Option ℕ) × Option (Option ℕ))
    → Buffers
    → Buffers
move_assign_buffer_self x old (some c, some k) (some b, some h) s = move_both x old b h s
move_assign_buffer_self x old _ _ s = s

-- The destructor: its body destroys the base's stream, and whether that fails or not, the member is
-- destructed then.
abbrev pub destruct_both : ℕ → Bool → Bool → Objects → Option Objects
destruct_both x ok inner_ok w = destruct_self (outer x) ok (w.self (outer x)) w >>= λ w1.
    destruct_self (member x) inner_ok (w1.self (member x)) w1

-- The two fields of an object
abbrev pub fields : ℕ → Buffers → Option (Option ℕ) × Option (Option ℕ)
fields x s = (s.objects.self (outer x), s.objects.self (member x))

unfoldable pub buffer_step : BufferOp → Buffers → Option Buffers
buffer_step (plainly o) s = step (on_plain o) s.objects >>= λ w.
    some (record { objects = w; inner = over s.objects.next none s.inner })
buffer_step (construct_buffer x old ok) s = some (
    construct_buffer_self x old ok (s.objects.self (outer x)) (s.objects.self (member x))
      (s.objects.self (plain old)) s)
buffer_step (move_construct_buffer x old) s =
    some (move_construct_buffer_self x old (fields x s) (fields old s) s)
buffer_step (move_assign_buffer x old) s =
    some (move_assign_buffer_self x old (fields x s) (fields old s) s)
buffer_step (destruct_buffer x ok inner_ok) s =
    destruct_both x ok inner_ok s.objects >>= λ w. some (record s { objects = w })

unfoldable pub buffer_run : List BufferOp → Buffers → Option Buffers
unfolding buffer_step
buffer_run [] s = some s
buffer_run (o ∷ os) s = buffer_step o s >>= λ s'. buffer_run os s'
