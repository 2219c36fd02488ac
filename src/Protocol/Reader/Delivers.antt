-- ===== src/Protocol/Reader/Delivers.antt =====
-- gate/src/protocol.rs: `read_frame` on what `frame` writes, in chunks.
use xddp.Prelude.{
  ℕ, ◌+◌, ◌-◌, ◌≤◌, ◌<◌, ◌≡◌, ap, sym, ◌∙◌, List, [], ◌∷◌, ◌++◌, length, take, drop,
  take-append_left,
}
use xddp.Protocol.Base.{ok}
use xddp.Protocol.Reader.{Arrival, got, failed, Conn, Limits, Filled, read_bounded, after}
use xddp.Protocol.Reader.Takes.{stream}

-- Every chunk is there already, and holds a byte at least.
abbrev pub Ready : ℕ → List Arrival → Type 0
Ready now [] = Unit {0}
Ready now (got time bs ∷ rest) = (time ≤ now) × (1 ≤ length bs) × Ready now rest
Ready now (failed time ∷ rest) = ⊥

-- What `read_bounded` does on such a connection.
pub record FilledBy (now k : ℕ) (xs : List ℕ) (f : Filled) (ys : List ℕ) : Type 0 where
  pub result : f.result ≡ ok xs
  pub clock : f.clock ≡ now
  pub ready : Ready now f.arrivals
  pub left : stream f.arrivals ≡ ys

pub take_front :
    (k : ℕ) (xs bs : List ℕ) → length xs ≡ k → bs ≡ xs ++ drop (length xs) bs → take k bs ≡ xs
take_front k xs bs h p =
    ap (λ (n : ℕ). take n bs) (sym h)
    ∙ ap (take (length xs)) p
    ∙ take-append_left xs (drop (length xs) bs)

-- A connection on which the bytes `xs` come next, and then `ys`.
pub record Holds (l : Limits) (s : Conn) (xs ys : List ℕ) : Type 0 where
  pub ready : Ready s.clock s.arrivals
  pub early : s.clock < l.absolute
  pub next : stream s.arrivals ≡ xs ++ ys
  pub budget : length xs ≤ s.remaining

-- It was read off, and paid for.
pub record Paid (l : Limits) (s : Conn) (xs ys : List ℕ) (s' : Conn) : Type 0 where
  pub ready : Ready s'.clock s'.arrivals
  pub early : s'.clock < l.absolute
  pub next : stream s'.arrivals ≡ ys
  pub paid : s'.remaining + length xs ≡ s.remaining

module _ (l : Limits) where
  spent : (s : Conn) (k wait' : ℕ) → Conn
  spent s k wait' =
      let f = read_bounded k l.absolute wait' s.clock s.arrivals in
      record (after s f) { remaining = s.remaining - k }
