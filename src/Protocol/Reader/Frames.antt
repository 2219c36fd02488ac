-- ===== src/Protocol/Reader/Frames.antt =====
-- gate/src/protocol.rs: what `read_frame` returns, and what it takes off the connection.
use xddp.Prelude.{
  ℕ, ◌+◌, ◌-◌, ◌≤◌, ◌≡◌, refl, ap, sym, ◌∙◌, List, [], ◌++◌, some, inl, inr, Bool-cases, ◌||◌, ltb,
  length, length-append, take, take-append_left, drop-append_left, arith,
}
use xddp.Prelude.Int.{pos}
use xddp.Protocol.Base.{Result, ok, err, Result-cases}
use xddp.Protocol.Varint.{varint}
use xddp.Protocol.Reader.{
  Conn, Limits, Frame, Filled, read_bounded, read_prefix, read_body, read_rest, read_frame, after,
  body,
}
use xddp.Protocol.Reader.Takes.{stream, Prefixed, read_prefix-Prefixed, read_bounded-Took}
use mathlib.Core.List.{append_assoc}

-- A frame that was read, and the connection after it.
pub record Delivered (l : Limits) (s : Conn) (f : Frame) (s' : Conn) : Type 0 where
  -- The frame is the next bytes, in order, with nothing lost between it and what follows.
  pub in_order : stream s.arrivals ≡ f.wire ++ stream s'.arrivals
  pub paid : s'.remaining + length f.wire ≡ s.remaining
  pub bounded : (1 ≤ length (body f)) × (length (body f) ≤ l.max_len) × (f.body_offset ≤ 3)
  -- The length that it announces is that of its body.
  pub parsed :
      (used : ℕ) × (varint (take f.body_offset f.wire) ≡ ok (some (pos (length (body f)), used)))
  pub in_time : s'.clock ≤ l.absolute

module _ (l : Limits) (s : Conn) where
  frame_Delivered :
      (s₁ s₂ : Conn) (len : ℕ) (whole xs : List ℕ)
      → Prefixed l 3 [] s len whole s₁
      → stream s₁.arrivals ≡ xs ++ stream s₂.arrivals
      → length xs ≡ len
      → len ≤ l.max_len
      → s₂.remaining + len ≡ s₁.remaining
      → (1 ≤ len → s₂.clock ≤ l.absolute)
      → Delivered l s (record { wire = whole ++ xs; body_offset = length whole }) s₂
  unfolding body
  frame_Delivered s₁ s₂ len whole xs p hs hl hm hr ht =
      let (used, q) = p.parsed in
      let e = drop-append_left whole xs in
      record {
        in_order =
            p.in_order ∙ ap (◌++◌ whole) hs ∙ sym (append_assoc whole xs (stream s₂.arrivals));
        paid = omega (arith, p.paid, length-append whole xs);
        bounded = rw e (omega (arith, p.positive, p.small));
        parsed = (used, rw (e, take-append_left whole xs, hl) q);
        in_time = ht p.positive;
      }

  body_Delivered :
      (s₁ : Conn) (len : ℕ) (whole : List ℕ) (f : Frame) (s' : Conn)
      → Prefixed l 3 [] s len whole s₁
      → read_body l len whole s₁ ≡ (ok f, s')
      → Delivered l s f s'
  unfolding read_body body
  body_Delivered s₁ len whole f s' p e =
      elim (Bool-cases (ltb l.max_len len || ltb s₁.remaining len)) [
        | inl large ↦ absurd (ground (arith, large, e))
        | inr fits ↦ elim (Result-cases filled.result) [
          | inr (x, q) ↦ absurd (ground (arith, fits, q, e))
          | inl (xs, q) ↦
              let t = read_bounded-Took len l.absolute l.progress s₁.clock s₁.arrivals xs q in
              let a : record { wire = whole ++ xs; body_offset = length whole } ≡ f =
                ground (arith, fits, q, e) in
              let b : record (after s₁ filled) { remaining = s₁.remaining - len } ≡ s' =
                ground (arith, fits, q, e) in
              rw (← a, ← b)
                (frame_Delivered s₁ _ len whole xs p t.in_order t.exact (ground (arith, fits))
                  (ground (arith, fits)) t.punctual)
        ]
      ]
    where
      filled : Filled
      filled = read_bounded len l.absolute l.progress s₁.clock s₁.arrivals

-- A frame that `read_frame` returns is the next bytes of the connection, exactly, with a length
-- prefix of at most three bytes that announces a body of 1 to `max_len` bytes. Its bytes are paid
-- for from the budget, and its last byte is read by the absolute deadline.
pub read_frame-Delivered :
    (l : Limits) (s : Conn) (f : Frame) (s' : Conn)
    → read_frame l s ≡ (ok f, s')
    → Delivered l s f s'
unfolding read_frame
read_frame-Delivered l s f s' e = go (read_prefix l 3 [] s).0 (read_prefix l 3 [] s).1 refl e
  where
    go :
        (r : Result (ℕ × List ℕ)) (s₁ : Conn)
        → read_prefix l 3 [] s ≡ (r, s₁)
        → read_rest l s₁ r ≡ (ok f, s')
        → Delivered l s f s'
    go (err x) s₁ h k = absurd (ground (arith, k))
    go (ok (len, whole)) s₁ h k =
        body_Delivered l s s₁ len whole f s' (read_prefix-Prefixed l 3 [] s len whole s₁ h) k
