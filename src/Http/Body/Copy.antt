-- ===== src/Http/Body/Copy.antt =====
-- One call of the body callback.
use libstreamlike.Common.{
  add_off, ℕ, ◌+◌, ◌-◌, ◌≤◌, ◌<◌, ◌≡◌, refl, ap, arith, ◌⊎◌, inl, inr, Bool-cases, ltb, min,
  size_mod, some, add_size-eq, sub_size-eq,
}
use libstreamlike.Memory.{Block, memcpy-some}
use libstreamlike.Http.{Http, State, paused}
use libstreamlike.Http.Body.{took, pause, Written, copy_body}

-- The stretch `outbuf` that a read asks for lies in its block, and the part of the piece that has been
-- taken before lies in the piece.
pub record IsOpen (curlbuf : Block) (size : ℕ) (h : Http) : Type 0 where
  pub out_le : h.outbuf_off ≤ h.outbuf_size
  pub out_in : h.outbuf_base + h.outbuf_size ≤ h.outbuf.len
  pub out_small : h.outbuf_size < size_mod
  pub cur_le : h.curlbuf_off ≤ size
  pub cur_in : size ≤ curlbuf.len
  pub cur_small : size < size_mod

module _ (curlbuf : Block) (size : ℕ) (h : Http) where
  -- How many bytes there are to move
  abbrev pub moved : ℕ
  moved = min (size - h.curlbuf_off) (h.outbuf_size - h.outbuf_off)

  -- What a call leaves that moves `moved` bytes from the piece to the stretch
  pub record IsMoved {W : Type 0} (world : W) (r : Written W) : Type 0 where
    pub copied :
        (i : ℕ)
        → i < moved
        → r.http.outbuf.at (h.outbuf_base + (h.outbuf_off + i)) ≡ curlbuf.at (h.curlbuf_off + i)
    pub frame :
        (j : ℕ)
        → (j < h.outbuf_base + h.outbuf_off) ⊎ (h.outbuf_base + h.outbuf_off + moved ≤ j)
        → r.http.outbuf.at j ≡ h.outbuf.at j
    pub len_eq : r.http.outbuf.len ≡ h.outbuf.len
    pub rest : r.http ≡ record h {
      outbuf = r.http.outbuf;
      outbuf_off = h.outbuf_off + moved;
      curlbuf_off = r.http.curlbuf_off;
      http_off = add_off h.http_off moved;
      state = r.http.state;
    }
    pub world_eq : r.world ≡ world
    pub verdict :
        ((r.verdict ≡ took size)
          × (r.http.curlbuf_off ≡ 0)
          × (r.http.state ≡ h.state)
          × (h.curlbuf_off + moved ≡ size)
          × (h.outbuf_off + moved < h.outbuf_size))
        ⊎ ((r.verdict ≡ pause)
            × (r.http.curlbuf_off ≡ h.curlbuf_off + moved)
            × (r.http.state ≡ paused)
            × (h.outbuf_off + moved ≡ h.outbuf_size))

  -- The offsets after a call, written with `moved`
  abbrev state_after : ℕ → Block → ℕ → State → Http
  state_after n b off st = record h {
    outbuf = b;
    outbuf_off = h.outbuf_off + n;
    curlbuf_off = off;
    http_off = add_off h.http_off n;
    state = st;
  }

  after-moved :
      (n : ℕ) (b : Block) (off : ℕ) (st : State)
      → n ≡ moved
      → state_after n b off st ≡ state_after moved b off st
  after-moved n b off st e = ap (λ m. state_after m b off st) e

  pub copy_body-IsMoved :
      {W : Type 0} (world : W)
      → IsOpen curlbuf size h
      → (r : Written W) × (copy_body curlbuf size h world ≡ some r) × IsMoved world r
  unfolding copy_body
  copy_body-IsMoved world o =
      rw
        (
          sub_size-eq h.outbuf_size h.outbuf_off (omega arith) (omega arith),
          sub_size-eq size h.curlbuf_off (omega arith) (omega arith),
        )
        (elim (Bool-cases (ltb (size - h.curlbuf_off) (h.outbuf_size - h.outbuf_off))) [
          | inl lt ↦
              rw
                (
                  lt,
                  memcpy-some h.outbuf (h.outbuf_base + h.outbuf_off) curlbuf h.curlbuf_off
                      (size - h.curlbuf_off) (ground arith) (omega arith),
                  add_size-eq h.outbuf_off (size - h.curlbuf_off) (ground arith),
                )
                (
                  _,
                  refl,
                  record {
                    copied = λ i l. ground arith;
                    frame = λ j l. ground arith;
                    len_eq = refl;
                    rest = after-moved _ _ _ _ (ground arith);
                    world_eq = refl;
                    verdict = inl (refl, refl, refl, ground arith, ground arith);
                  },
                )
          | inr ge ↦
              rw
                (
                  ge,
                  memcpy-some h.outbuf (h.outbuf_base + h.outbuf_off) curlbuf h.curlbuf_off
                      (h.outbuf_size - h.outbuf_off) (omega arith) (ground arith),
                  add_size-eq h.outbuf_off (h.outbuf_size - h.outbuf_off) (ground arith),
                  add_size-eq h.curlbuf_off (h.outbuf_size - h.outbuf_off) (ground arith),
                )
                (
                  _,
                  refl,
                  record {
                    copied = λ i l. ground arith;
                    frame = λ j l. ground arith;
                    len_eq = refl;
                    rest = after-moved _ _ _ _ (ground arith);
                    world_eq = refl;
                    verdict = inr (refl, ground arith, refl, ground arith);
                  },
                )
        ])
