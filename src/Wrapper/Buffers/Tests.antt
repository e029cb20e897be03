-- ===== src/Wrapper/Buffers/Tests.antt =====
-- A program that buffers a file, moves the buffered stream and destructs it.
use libstreamlike.Common.{◌≡◌, refl, true, false, some, List, [], ◌∷◌, Ensures}
use libstreamlike.Wrapper.Owner.{construct, destruct, step}
use libstreamlike.Wrapper.Buffers.{
  outer, no_buffers, BufferOp, plainly, construct_buffer, move_construct_buffer, destruct_buffer,
  buffer_run, buffer_step,
}

abbrev program : List BufferOp
program =
    plainly (construct 0 true)
    ∷ construct_buffer 5 0 true
    ∷ move_construct_buffer 6 5
    ∷ plainly (destruct 0 true)
    ∷ destruct_buffer 5 true true
    ∷ []

-- The second object holds both streams.
buffer_run-program :
    Ensures
      (λ s.
        (s.objects.live ≡ 1 ∷ 0 ∷ [])
        × (s.objects.self (outer 6) ≡ some (some 1))
        × (s.inner 1 ≡ some 0))
      (buffer_run program no_buffers)
unfolding buffer_run buffer_step step
buffer_run-program = (refl, refl, refl)

-- Where `sl_buffer_destroy` fails, the stream that the buffered stream reads from is destroyed all the
-- same, and the buffered stream is left.
abbrev failing : List BufferOp
failing = plainly (construct 0 true) ∷ construct_buffer 5 0 true ∷ destruct_buffer 5 false true ∷ []

buffer_run-failing :
    Ensures
      (λ s. (s.objects.live ≡ []) × (s.objects.stuck ≡ 1 ∷ []) × (s.inner 1 ≡ some 0))
      (buffer_run failing no_buffers)
unfolding buffer_run buffer_step step
buffer_run-failing = (refl, refl, refl)
