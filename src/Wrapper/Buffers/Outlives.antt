-- ===== src/Wrapper/Buffers/Outlives.antt =====
-- Programs of objects of `StreamlikeBuffer`: no stream is destroyed while a buffered stream reads from it.
use libstreamlike.Common.{Bool, Bool}
use libstreamlike.Wrapper.Buffers.{Buffers}
-- Every stream that a buffered stream reads from is live as long as that one, and the object that holds it
-- is the member of the object that holds the buffered stream.
use libstreamlike.Wrapper.Buffers.Alive.{IsNested}

abbrev pub AreNested : Buffers → Type 0
AreNested s = IsNested s.objects s.inner
