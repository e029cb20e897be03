-- ===== src/Http/Header/Settled.antt =====
-- What the header callback may change of the stream, and when it ends the transfer.
use libstreamlike.Common.{
  ℕ, ◌+◌, ◌-◌, ◌*◌, ◌%◌, ◌≡◌, ◌≢◌, ◌∙◌, refl, ap, sym, arith, ◌⊎◌, inl, inr, true, false, not, ◌&&◌,
  ◌==◌, ==_iff, if-both, ℤ, ltb_ℤ, eq_ℤ, eq_ℤ-eq, Option, none, some, size_mod,
}
use libstreamlike.Memory.{Block}
use libstreamlike.Http.{Http, RangeAllowed, range_yes, range_no}
use libstreamlike.Http.Header.{
  Scanner, HeaderType, is_content_range, is_content_length, is_accept_ranges, is_unknown, memtrim,
  memchr, memcasestartswith, bytes_unit, set_range, set_total, set_len, at_colon, at_status,
  header_cb_,
}

-- From `h` to `h'` nothing changes but the status, the length and whether ranges are allowed, and of
-- the latter two none that is known.
pub record IsSettled (h h' : Http) : Type 0 where
  pub rest : h' ≡ record h {
    http_status = h'.http_status;
    http_len = h'.http_len;
    http_range_allowed = h'.http_range_allowed;
  }
  pub range_kept :
      is_unknown h.http_range_allowed ≡ false → h'.http_range_allowed ≡ h.http_range_allowed
  pub len_kept : ltb_ℤ h.http_len (ℤ.pos 0) ≡ false → h'.http_len ≡ h.http_len

true_ne : true ≢ false
true_ne = λ p. absurd (grind (arith, p))

same-IsSettled : (h : Http) → IsSettled h h
same-IsSettled h = record { rest = refl; range_kept = λ _. refl; len_kept = λ _. refl }

range-IsSettled :
    (h : Http) (a : RangeAllowed)
    → is_unknown h.http_range_allowed ≡ true
    → IsSettled h (record h { http_range_allowed = a })
range-IsSettled h a e = record {
  rest = refl;
  range_kept = λ f. absurd (grind (arith, e, f));
  len_kept = λ _. refl;
}

len-IsSettled :
    (h : Http) (n : ℤ) → ltb_ℤ h.http_len (ℤ.pos 0) ≡ true → IsSettled h (record h { http_len = n })
len-IsSettled h n e = record {
  rest = refl;
  range_kept = λ _. refl;
  len_kept = λ f. absurd (true_ne (sym e ∙ f));
}

module _ (c : Scanner) (b : Block) where
  set_range-IsSettled :
      (type : HeaderType) (value line_end : ℕ) (h : Http)
      → IsSettled h (set_range b type value line_end h)
  unfolding set_range
  set_range-IsSettled type value line_end h =
      if-both (IsSettled h) (is_unknown h.http_range_allowed)
        (λ u.
          if-both (IsSettled h) (is_content_range type) (λ _. range-IsSettled h range_yes u)
            (λ _.
              if-both (IsSettled h) (not (eq_ℤ h.http_off 0) && eq_ℤ h.http_status 200)
                (λ _. range-IsSettled h range_no u)
                (λ _.
                  if-both (IsSettled h) (is_accept_ranges type)
                    (λ _.
                      if-both (IsSettled h)
                        (memcasestartswith b value (line_end - value) bytes_unit)
                        (λ _. range-IsSettled h range_yes u) (λ _. range-IsSettled h range_no u))
                    (λ _. same-IsSettled h))))
        (λ _. same-IsSettled h)

  set_total-IsSettled :
      (line_end : ℕ) (slash : Option ℕ) (h : Http)
      → ltb_ℤ h.http_len (ℤ.pos 0) ≡ true
      → IsSettled h (set_total c b line_end slash h)
  set_total-IsSettled line_end none h u = same-IsSettled h
  set_total-IsSettled line_end (some slash) h u =
      if-both (IsSettled h) (slash + 1 == line_end) (λ _. same-IsSettled h)
        (λ _. len-IsSettled h _ u)

  set_len-IsSettled :
      (type : HeaderType) (value line_end : ℕ) (h : Http)
      → IsSettled h (set_len c b type value line_end h)
  unfolding set_len
  set_len-IsSettled type value line_end h =
      if-both (IsSettled h) (ltb_ℤ h.http_len (ℤ.pos 0))
        (λ u.
          if-both (IsSettled h) (eq_ℤ h.http_status 206 && is_content_range type)
            (λ _. set_total-IsSettled line_end (memchr b 47 value (line_end - value)) h u)
            (λ _.
              if-both (IsSettled h) (eq_ℤ h.http_status 200 && is_content_length type)
                (λ _. len-IsSettled h _ u) (λ _. same-IsSettled h)))
        (λ _. same-IsSettled h)

  then-IsSettled : (h h' h'' : Http) → IsSettled h h' → IsSettled h' h'' → IsSettled h h''
  then-IsSettled h h' h'' s t = record {
    rest =
        t.rest
        ∙ ap {A = Http} {B = Http}
            (λ x. record x {
              http_status = h''.http_status;
              http_len = h''.http_len;
              http_range_allowed = h''.http_range_allowed;
            })
            s.rest;
    range_kept = λ f. t.range_kept (ap is_unknown (s.range_kept f) ∙ f) ∙ s.range_kept f;
    len_kept = λ f. t.len_kept (ap (λ n. ltb_ℤ n (ℤ.pos 0)) (s.len_kept f) ∙ f) ∙ s.len_kept f;
  }

  at_colon-IsSettled :
      (line line_end : ℕ) (colon : Option ℕ) (h : Http)
      → IsSettled h (at_colon c b line line_end colon h)
  at_colon-IsSettled line line_end none h = same-IsSettled h
  at_colon-IsSettled line line_end (some colon) h =
      if-both (IsSettled h) (colon + 1 == line_end) (λ _. same-IsSettled h)
        (λ _.
          if-both (IsSettled h) (colon == line) (λ _. same-IsSettled h)
            (λ _.
              if-both (IsSettled h) (memtrim b (colon + 1) (line_end - colon - 1)).blank
                (λ _. same-IsSettled h)
                (λ _.
                  then-IsSettled h _ _ (set_range-IsSettled _ _ line_end h)
                    (set_len-IsSettled _ _ line_end _))))

  -- What the callback returns: the size of the line, or 0 if it is empty or tells of the status 416
  pub record IsParsed (size : ℕ) (h : Http) (r : Http × ℕ) : Type 0 where
    pub settled : IsSettled h r.0
    pub answer : (r.1 ≡ size) ⊎ ((r.1 ≡ 0) × (r.0.http_status ≡ ℤ.pos 416))

  at_status-IsParsed :
      (size line line_end : ℕ) (status : Option ℤ) (h : Http)
      → IsParsed size h (at_status c b size line line_end status h)
  at_status-IsParsed size line line_end none h = record {
    settled = at_colon-IsSettled line line_end _ h;
    answer = inl refl;
  }
  at_status-IsParsed size line line_end (some status) h = record {
    settled = record { rest = refl; range_kept = λ _. refl; len_kept = λ _. refl };
    answer =
        if-both (λ n. (n ≡ size) ⊎ ((n ≡ 0) × (status ≡ ℤ.pos 416))) (eq_ℤ status 416)
          (λ e. inr (refl, eq_ℤ-eq status 416 e)) (λ _. inl refl);
  }

  -- Whatever a line of the header says, the callback changes nothing of the stream but the status, the
  -- length and whether ranges are allowed; it keeps a length that is known, and a known answer on
  -- ranges; and it returns the size of the line, or 0, which ends the transfer, with the status 416.
  pub header_cb_-IsParsed :
      (nitems curlbuf_size : ℕ) (h : Http)
      → let size = (curlbuf_size * nitems) % size_mod in
        IsParsed size h (header_cb_ c b nitems curlbuf_size h)
  unfolding header_cb_
  header_cb_-IsParsed nitems curlbuf_size h =
      let size = (curlbuf_size * nitems) % size_mod in
      let line = memtrim b 0 size in
      if-both (IsParsed size h) (size == 0)
        (λ e. record { settled = same-IsSettled h; answer = inl (sym ((==_iff size 0).0 e)) })
        (λ _.
          if-both (IsParsed size h) line.blank
            (λ _. record { settled = same-IsSettled h; answer = inl refl })
            (λ _. at_status-IsParsed size line.begin line.end (c.scan_status b line.begin) h))
