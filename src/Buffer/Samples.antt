-- ===== src/Buffer/Samples.antt =====
-- A buffered stream of four bytes over an inner stream of five, for the tests.
use libstreamlike.Common.{
  zero, suc, ℕ, ◌+◌, ◌-◌, ◌≡◌, refl, arith, true, false, ltb, leb, ◌&&◌, if◌then◌else◌, min, ℤ,
  List, ◌∷◌, none, some, add_size,
}
use libstreamlike.Memory.{Block}
use libstreamlike.Circbuf.{Circbuf}
use libstreamlike.Circbuf.Lifecycle as Ring
use libstreamlike.Circbuf.Lifecycle.Release.{IsAllocator}
use libstreamlike.Buffer.Lifecycle.{Try, Outcomes, fresh, create2, threaded_fill_buffer}
use libstreamlike.Buffer.Lifecycle.Create.{all_held}
use libstreamlike.Buffer.Machine.{Inner, System}
use libstreamlike.Buffer.Threads.{Choice}
use libstreamlike.Buffer.Threads.Source.{IsInner}
use libstreamlike.Buffer.Threads.Safety.{started}

-- Blocks up to 100 bytes can be had.
abbrev pub ring : Ring.Outcomes
ring = record {
  struct_ok = true;
  alloc = λ n. if leb n 100 then some (record { len = n; at = λ _. 0 }) else none;
  rcond_code = 0;
  wcond_code = 0;
  rlock_code = 0;
  wlock_code = 0;
}

pub ring-IsAllocator : IsAllocator ring.alloc
ring-IsAllocator n b e = ground arith

abbrev pub well : Try
well = record { block_ok = true; code = 0 }

abbrev pub good : Outcomes
good = record {
  context_ok = true;
  cbuf = ring;
  stream_ok = true;
  eof_lock = well;
  eof_cond = well;
  seek_lock = well;
  seek_cond = well;
}

abbrev pub cbuf : Circbuf
cbuf = record {
  mem = record { len = 5; at = λ _. 0 };
  size = 5;
  woff = 0;
  roff = 0;
  wdone = false;
  rdone = false;
}

pub created : create2 good true 4 2 ≡ some (some (fresh cbuf 2), all_held)
unfolding create2 Ring.init add_size
created = refl

-- An inner stream of the bytes 0 to 4; the state is the offset.
abbrev pub five : Inner ℕ
five = record {
  read = λ w mem there n.
      let k = min n (5 - w) in
      (
        w + k,
        record mem {
          at = λ j. if leb there j && ltb j (there + k) then w + (j - there) else mem.at j;
        },
        k,
      );
  seek = λ w offset whence. elim offset [
    | ℤ.pos k ↦ if leb k 5 then (k, ℤ.pos 0) else (w, ℤ.negsuc 0)
    | ℤ.negsuc k ↦ (w, ℤ.negsuc 0)
  ];
}

five-lands :
    (w : ℕ) (offset : ℤ)
    → (five.seek w offset (ℤ.pos 0)).1 ≡ ℤ.pos 0
    → ℤ.pos (five.seek w offset (ℤ.pos 0)).0 ≡ offset
five-lands w (ℤ.pos k) e = ground arith
five-lands w (ℤ.negsuc k) e = ground arith

five-stays :
    (w : ℕ) (offset : ℤ)
    → ¬ ((five.seek w offset (ℤ.pos 0)).1 ≡ ℤ.pos 0)
    → (five.seek w offset (ℤ.pos 0)).0 ≡ w
five-stays w (ℤ.pos k) e = ground arith
five-stays w (ℤ.negsuc k) e = refl

pub five-IsInner : IsInner five (λ i. i) (λ w. w)
five-IsInner = record {
  at_most = λ w mem there n. omega arith;
  len_eq = λ w mem there n. refl;
  frame = λ w mem there n j h. ground arith;
  stored = λ w mem there n i l. ground arith;
  goes_on = λ w mem there n. refl;
  lands = five-lands;
  stays = five-stays;
}

abbrev pub ramp : ℕ → Block
ramp n = record { len = n; at = λ i. 10 + i }

abbrev pub steps : ℕ → Choice → List Choice → List Choice
steps zero x xs = xs
steps (suc n) x xs = x ∷ steps n x xs

abbrev pub begun : System ℕ
begun = started (record (fresh cbuf 2) { has_filler = true }) 0

pub begins :
    threaded_fill_buffer true 0 (some (some (fresh cbuf 2))) all_held
    ≡ some (
      ℤ.pos 0,
      some (some (record (fresh cbuf 2) { has_filler = true })),
      record all_held { filler = true },
    )
unfolding threaded_fill_buffer
begins = refl
