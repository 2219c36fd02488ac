-- ===== src/Protocol/Reader/Takes.antt =====
-- gate/src/protocol.rs: what `read_frame` takes off a connection.
use xddp.Prelude.{
  ℕ, some, none, Option, zero, suc, ◌+◌, ◌-◌, ◌≤◌, ◌<◌, ◌≡◌, refl, ap, sym, ◌∙◌, max, List, [], ◌∷◌,
  ◌++◌, inl, inr, leb, ◌==◌, Bool-cases, length, length-append, take, drop, take-append-drop,
  length-take, arith,
}
use xddp.Protocol.Base.{Result, ok, err, Result-cases}
use xddp.Protocol.Reader.{
  Arrival, got, failed, Filled, with_front, until, read_bounded, Limits, Conn, decided, read_prefix,
  wait,
}
use xddp.Prelude.Int.{ℤ, pos, negsuc}
use xddp.Protocol.Varint.{varint}
use mathlib.Core.List.{append_assoc}

-- The bytes that are on their way, up to a failure.
abbrev pub stream : List Arrival → List ℕ
stream [] = []
stream (got time bs ∷ rest) = bs ++ stream rest
stream (failed time ∷ rest) = []

-- What `read_bounded` did where it succeeded.
pub record Took (k absolute now : ℕ) (arrivals : List Arrival) (f : Filled) (xs : List ℕ)
    : Type 0 where
  pub in_order : stream arrivals ≡ xs ++ stream f.arrivals
  pub exact : length xs ≡ k
  pub in_time : f.clock ≤ max now absolute
  -- Where a byte was read, it was before the deadline.
  pub punctual : 1 ≤ k → f.clock ≤ absolute
  pub later : now ≤ f.clock

module _ (k absolute now : ℕ) (bs : List ℕ) (time : ℕ) (rest : List Arrival) where
  -- A whole chunk, and what follows it.
  chunk_Took :
      (f : Filled) (xs : List ℕ)
      → now < absolute
      → time ≤ absolute
      → length bs ≤ k
      → ((ys : List ℕ) → f.result ≡ ok ys → Took (k - length bs) absolute (max now time) rest f ys)
      → (with_front bs f).result ≡ ok xs
      → Took k absolute now (got time bs ∷ rest) (with_front bs f) xs
  unfolding with_front
  chunk_Took f xs hn ht hk ih e = elim (Result-cases f.result) [
    | inl (ys, p) ↦
        let t = ih ys p in
        let q : xs ≡ bs ++ ys = ground (arith, p, e) in
        rw q (record {
          in_order = rw t.in_order (sym (append_assoc bs ys (stream f.arrivals)));
          exact = omega (arith, length-append bs ys, t.exact);
          in_time = omega (arith, t.in_time);
          punctual = λ _. omega (arith, t.in_time, hn, ht);
          later = omega (arith, t.later);
        })
    | inr (x, p) ↦ absurd (ground (arith, p, e))
  ]

  -- The front of a chunk that holds more than is missing.
  part_Took :
      now < absolute
      → time ≤ absolute
      → k ≤ length bs
      → Took k absolute now
          (got time bs ∷ rest)
          (record {
            result = ok (take k bs);
            clock = max now time;
            arrivals = got time (drop k bs) ∷ rest;
          })
          (take k bs)
  part_Took hn ht hk = record {
    in_order =
        ap (λ (t : List ℕ). t ++ stream rest) (sym (take-append-drop k bs))
        ∙ append_assoc (take k bs) (drop k bs) (stream rest);
    exact = omega (arith, length-take k bs);
    in_time = omega arith;
    punctual = λ _. omega (arith, hn, ht);
    later = omega arith;
  }

pub read_bounded-Took :
    (k absolute progress now : ℕ) (arrivals : List Arrival) (xs : List ℕ)
    → (read_bounded k absolute progress now arrivals).result ≡ ok xs
    → Took k absolute now arrivals (read_bounded k absolute progress now arrivals) xs
unfolding read_bounded
read_bounded-Took zero absolute progress now arrivals xs e = ground (arith, e)
read_bounded-Took (suc k) absolute progress now [] xs e = absurd (ground (arith, e))
read_bounded-Took (suc k) absolute progress now (failed time ∷ rest) xs e =
    absurd (ground (arith, e))
read_bounded-Took (suc k) absolute progress now (got time bs ∷ rest) xs e =
    elim (Bool-cases (leb absolute now)) [
      | inl late ↦ absurd (ground (arith, late, e))
      | inr early ↦ elim (Bool-cases (leb time (until absolute progress now))) [
        | inr never ↦ absurd (ground (arith, early, never, e))
        | inl soon ↦ elim (Bool-cases (length bs == 0)) [
          | inl end ↦ absurd (ground (arith, early, soon, end, e))
          | inr more ↦ elim (Bool-cases (leb (length bs) (suc k))) [
            | inl whole ↦
                rw (early, soon, more, whole)
                  (chunk_Took (suc k) absolute now bs time rest
                    (read_bounded (suc k - length bs) absolute progress (max now time) rest) xs
                    (ground arith) (ground arith) (ground arith)
                    (read_bounded-Took (suc k - length bs) absolute progress (max now time) rest)
                    (rw (early, soon, more, whole) at e))
            | inr part ↦
                rw (early, soon, more, part)
                  (let q : xs ≡ take (suc k) bs = ground (arith, early, soon, more, part, e) in
                    rw q (
                      part_Took (suc k) absolute now bs time rest (ground arith) (ground arith)
                        (ground arith)))
          ]
        ]
      ]
    ]

-- What the loop over the length did where it succeeded.
pub record Prefixed (l : Limits) (k : ℕ) (prefix : List ℕ) (s : Conn) (len : ℕ) (whole : List ℕ)
    (s' : Conn) : Type 0 where
  pub in_order : prefix ++ stream s.arrivals ≡ whole ++ stream s'.arrivals
  pub paid : s'.remaining + length whole ≡ s.remaining + length prefix
  pub small : length whole ≤ k + length prefix
  pub positive : 1 ≤ len
  pub parsed : (used : ℕ) × (varint whole ≡ ok (some (pos len, used)))
  pub in_time : s'.clock ≤ max s.clock l.absolute
  pub later : s.clock ≤ s'.clock

module _ (l : Limits) where
  -- A byte of the prefix, and what the loop did with the rest.
  step_Prefixed :
      (k : ℕ) (prefix b : List ℕ) (s s₁ s' : Conn) (len : ℕ) (whole : List ℕ)
      → stream s.arrivals ≡ b ++ stream s₁.arrivals
      → length b ≡ 1
      → s₁.remaining + 1 ≡ s.remaining
      → s₁.clock ≤ max s.clock l.absolute
      → s.clock ≤ s₁.clock
      → Prefixed l k (prefix ++ b) s₁ len whole s'
      → Prefixed l (suc k) prefix s len whole s'
  step_Prefixed k prefix b s s₁ s' len whole hs hb hr ht hl p = record {
    in_order = ap (◌++◌ prefix) hs ∙ sym (append_assoc prefix b (stream s₁.arrivals)) ∙ p.in_order;
    paid = omega (arith, p.paid, length-append prefix b);
    small = omega (arith, p.small, length-append prefix b);
    positive = p.positive;
    parsed = p.parsed;
    in_time = omega (arith, p.in_time);
    later = omega (arith, p.later);
  }

  decided-Prefixed :
      (k : ℕ) (s : Conn) (prefix : List ℕ) (s' : Conn) (len : ℕ) (whole : List ℕ)
      (more : Result (ℕ × List ℕ) × Conn) (v : Result (Option (ℤ × ℕ)))
      → varint prefix ≡ v
      → (more ≡ (ok (len, whole), s') → Prefixed l k prefix s len whole s')
      → decided s prefix more v ≡ (ok (len, whole), s')
      → Prefixed l k prefix s len whole s'
  decided-Prefixed k s prefix s' len whole more (err x) h ih e = absurd (ground (arith, e))
  decided-Prefixed k s prefix s' len whole more (ok none) h ih e = ih e
  decided-Prefixed k s prefix s' len whole more (ok (some (negsuc n, used))) h ih e =
      absurd (ground (arith, e))
  decided-Prefixed k s prefix s' len whole more (ok (some (pos zero, used))) h ih e =
      absurd (ground (arith, e))
  decided-Prefixed k s prefix s' len whole more (ok (some (pos (suc n), used))) h ih e =
      let a : suc n ≡ len = ground (arith, e) in
      let b : prefix ≡ whole = ground (arith, e) in
      let c : s ≡ s' = ground (arith, e) in
      rw (← a, ← b, ← c)
        (record {
          in_order = refl;
          paid = refl;
          small = omega arith;
          positive = omega arith;
          parsed = (used, h);
          in_time = omega arith;
          later = omega arith;
        })

  pub read_prefix-Prefixed :
      (k : ℕ) (prefix : List ℕ) (s : Conn) (len : ℕ) (whole : List ℕ) (s' : Conn)
      → read_prefix l k prefix s ≡ (ok (len, whole), s')
      → Prefixed l k prefix s len whole s'
  unfolding read_prefix
  read_prefix-Prefixed zero prefix s len whole s' e = absurd (ground (arith, e))
  read_prefix-Prefixed (suc k) prefix s len whole s' e = elim (Bool-cases (s.remaining == 0)) [
    | inl none_left ↦ absurd (ground (arith, none_left, e))
    | inr left ↦ elim (Result-cases f.result) [
      | inr (x, p) ↦ absurd (ground (arith, left, p, e))
      | inl (b, p) ↦
          let t = read_bounded-Took 1 l.absolute (wait l prefix) s.clock s.arrivals b p in
          step_Prefixed k prefix b s (s₁ b) s' len whole t.in_order t.exact (ground (arith, left))
            t.in_time t.later
            (decided-Prefixed k (s₁ b) (prefix ++ b) s' len whole
              (read_prefix l k (prefix ++ b) (s₁ b)) (varint (prefix ++ b)) refl
              (λ q. read_prefix-Prefixed k (prefix ++ b) (s₁ b) len whole s' q) (rw (left, p) at e))
    ]
  ]
    where
      f : Filled
      f = read_bounded 1 l.absolute (wait l prefix) s.clock s.arrivals

      s₁ : List ℕ → Conn
      s₁ b = record { clock = f.clock; arrivals = f.arrivals; remaining = s.remaining - 1 }
