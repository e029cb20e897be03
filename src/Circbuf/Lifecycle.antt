-- ===== src/Circbuf/Lifecycle.antt =====
-- src/streamlike/util/circbuf.c: `circbuf_init` and `circbuf_destroy`, with what they acquire and
-- release. The allocator and the threads library are parameters: `Outcomes` is what their calls
-- return.
pub mod Release
use libstreamlike.Common.{ℕ, Bool, true, false, ◌==◌, if◌then◌else◌, add_size, Option, none, some}
use libstreamlike.Memory.{Block}
use libstreamlike.Circbuf.{Circbuf}

-- What `malloc(sizeof(circbuf_t))`, `malloc(cbuf_size)` and the four calls of the threads library
-- return; a code other than 0 is a failure.
pub record Outcomes : Type 0 where
  pub struct_ok : Bool
  pub alloc : ℕ → Option Block
  pub rcond_code : ℕ
  pub wcond_code : ℕ
  pub rlock_code : ℕ
  pub wlock_code : ℕ

-- Which of the resources behind a buffer are held
pub record Held : Type 0 where
  pub struct : Bool
  pub block : Bool
  pub rcond : Bool
  pub wcond : Bool
  pub rlock : Bool
  pub wlock : Bool

abbrev pub nothing_held : Held
nothing_held = record {
  struct = false;
  block = false;
  rcond = false;
  wcond = false;
  rlock = false;
  wlock = false;
}

-- The label `fail`: both blocks are freed.
abbrev pub fail : Held → Option Circbuf × Held
fail h = (none, record h { block = false; struct = false })

-- `circbuf_init`: the buffer or NULL, and what is held when it returns
unfoldable pub init : Outcomes → ℕ → Option Circbuf × Held
init o cbuf_size =
    if cbuf_size == 0
    then (none, nothing_held)
    else (let size = add_size cbuf_size 1 in
        if o.struct_ok
        then elim (o.alloc size) [
          | none ↦ (none, nothing_held)
          | some mem ↦
              (let h0 = record nothing_held { struct = true; block = true } in
                if o.rcond_code == 0
                then (let h1 = record h0 { rcond = true } in
                    if o.wcond_code == 0
                    then (let h2 = record h1 { wcond = true } in
                        if o.rlock_code == 0
                        then (let h3 = record h2 { rlock = true } in
                            if o.wlock_code == 0
                            then (
                              some (record {
                                mem = mem;
                                size = size;
                                woff = 0;
                                roff = 0;
                                wdone = false;
                                rdone = false;
                              }),
                              record h3 { wlock = true },
                            )
                            else fail (record h3 { rcond = false; wcond = false; rlock = false }))
                        else fail (record h2 { rcond = false; wcond = false }))
                    else fail (record h1 { rcond = false }))
                else fail h0)
        ]
        else (none, nothing_held))

-- `circbuf_destroy`
unfoldable pub destroy : Held → Held
destroy h = record h {
  rlock = false;
  wlock = false;
  rcond = false;
  wcond = false;
  block = false;
  struct = false;
}
