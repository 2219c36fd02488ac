-- ===== src/IncomingProxy/Exact.antt =====
-- gate/src/incoming_proxy.rs: what `read_exact` takes from a connection under its deadline.
use xddp.Prelude.{
  ℕ, zero, suc, ◌-◌, ◌≤◌, ◌<◌, ◌≡◌, refl, ap, sym, ◌∙◌, max, List, [], ◌∷◌, ◌++◌, true, false, inl,
  inr, Bool-cases, leb, ◌==◌, length, length-append, length-take, length-drop, take, drop,
  take-append-drop, append_split, arith,
}
use xddp.Protocol.Base.{err-ne-ok, Result, ok, err}
use xddp.Protocol.Reader.{Arrival, got, failed}
use xddp.Protocol.Reader.Takes.{stream}
use xddp.Protocol.Reader.Delivers.{Ready, take_front}
use xddp.IncomingProxy.{Stream, exact, prepended}
use mathlib.Core.List.{append_assoc}

-- All of the bytes, in order and no more, or an error; the deadline is kept.
pub data Took (k limit now : ℕ) (arrivals : List Arrival) : Result (List ℕ) × Stream → Type 0 where
  all_of :
      {xs : List ℕ} {s : Stream}
      → length xs ≡ k
      → stream arrivals ≡ xs ++ stream s.arrivals
      → s.clock ≤ max now limit
      → Took k limit now arrivals (ok xs, s)
  nothing : {e : _} {s : Stream} → s.clock ≤ max now limit → Took k limit now arrivals (err e, s)

prepended-Took :
    (k limit now time : ℕ) (bs : List ℕ) (rest : List Arrival) (r : Result (List ℕ) × Stream)
    → time ≤ max now limit
    → length bs ≤ suc k
    → Took (suc k - length bs) limit (max now time) rest r
    → Took (suc k) limit now (got time bs ∷ rest) (prepended bs r)
prepended-Took k limit now time bs rest _ t h (all_of {xs = xs} {s = s} l e c) =
    all_of (omega (arith, length-append bs xs, h, l))
      (ap (◌++◌ bs) e ∙ sym (append_assoc bs xs (stream s.arrivals))) (omega (arith, t, c))
prepended-Took k limit now time bs rest _ t h (nothing c) = nothing (omega (arith, t, c))

pub exact-Took :
    (k limit now : ℕ) (arrivals : List Arrival)
    → Took k limit now arrivals (exact k limit now arrivals)
unfolding exact
exact-Took zero limit now arrivals = all_of refl refl (omega arith)
exact-Took (suc k) limit now [] = nothing (omega arith)
exact-Took (suc k) limit now (failed time ∷ rest) = elim (Bool-cases (leb time (max now limit))) [
  | inl soon ↦ rw soon (nothing (ground (arith, soon)))
  | inr late ↦ rw late (nothing (omega arith))
]
exact-Took (suc k) limit now (got time bs ∷ rest) = elim (Bool-cases (leb time (max now limit))) [
  | inr late ↦ rw late (nothing (omega arith))
  | inl soon ↦
      let in_time : time ≤ max now limit = ground (arith, soon) in
      elim (Bool-cases (length bs == 0)) [
        | inl ended ↦ rw (soon, ended) (nothing (omega (arith, in_time)))
        | inr more ↦ elim (Bool-cases (leb (length bs) (suc k))) [
          | inl whole ↦
              rw (soon, more, whole)
                (prepended-Took k limit now time bs rest _ in_time (ground (arith, whole))
                  (exact-Took (suc k - length bs) limit (max now time) rest))
          | inr part ↦
              let long : suc k < length bs = ground (arith, part) in
              rw (soon, more, part)
                (all_of (length-take (suc k) bs ∙ omega (arith, long))
                  (ap (λ (t : List ℕ). t ++ stream rest) (sym (take-append-drop (suc k) bs))
                    ∙ append_assoc (take (suc k) bs) (drop (suc k) bs) (stream rest))
                  (omega (arith, in_time)))
        ]
      ]
]

-- The bytes come from chunks that arrive in time; what comes later may be anything.
pub record Given {A : Type 0} (bound : ℕ) (x : A) (ys : List ℕ) (late : List Arrival)
    (r : Result A × Stream) : Type 0 where
  pub result : r.0 ≡ ok x
  pub clock : r.1.clock ≤ bound
  pub early : List Arrival
  pub arrivals : r.1.arrivals ≡ early ++ late
  pub ready : Ready bound early
  pub left : stream early ≡ ys

prepended-Given :
    (bound : ℕ) (bs xs ys : List ℕ) (late : List Arrival) (r : Result (List ℕ) × Stream)
    → Given bound xs ys late r
    → Given bound (bs ++ xs) ys late (prepended bs r)
prepended-Given bound bs xs ys late (ok zs, s) g = record {
  result = ap (λ (r : Result (List ℕ)). (prepended bs (r, s)).0) g.result;
  clock = g.clock;
  early = g.early;
  arrivals = g.arrivals;
  ready = g.ready;
  left = g.left;
}
prepended-Given bound bs xs ys late (err e, s) g = absurd (err-ne-ok e g.result)

pub exact-Given :
    (k limit now bound : ℕ) (early late : List Arrival) (xs ys : List ℕ)
    → max now limit ≡ bound
    → Ready bound early
    → length xs ≡ k
    → stream early ≡ xs ++ ys
    → Given bound xs ys late (exact k limit now (early ++ late))
unfolding exact
exact-Given zero limit now bound early late [] ys hb r hl hs = record {
  result = refl;
  clock = omega (arith, hb);
  early = early;
  arrivals = refl;
  ready = r;
  left = hs;
}
exact-Given zero limit now bound early late (x ∷ xs) ys hb r hl hs = absurd (omega arith)
exact-Given (suc k) limit now bound [] late xs ys hb r hl hs =
    absurd (omega (arith, ap length hs, length-append xs ys))
exact-Given (suc k) limit now bound (failed time ∷ rest) late xs ys hb r hl hs = elim r [ ]
exact-Given (suc k) limit now bound (got time bs ∷ rest) late xs ys hb (ht, hne, r) hl hs =
    let soon : leb time (max now limit) ≡ true = ground arith in
    let more : length bs == 0 ≡ false = ground arith in
    elim (Bool-cases (leb (length bs) (suc k))) [
      | inl whole ↦
          let (p, q) = append_split bs (stream rest) xs ys hs (ground (arith, whole)) in
          rw (soon, more, whole, p)
            (prepended-Given bound bs (drop (length bs) xs) ys late _ (
              exact-Given (suc k - length bs) limit (max now time) bound rest late
                (drop (length bs) xs) ys (omega (arith, hb, ht)) r
                (omega (arith, length-drop (length bs) xs)) q))
      | inr part ↦
          let long : suc k < length bs = ground (arith, part) in
          let (p, q) = append_split xs ys bs (stream rest) (sym hs) (omega (arith, long)) in
          rw (soon, more, part)
            (record {
              result = ap ok (take_front (suc k) xs bs hl p);
              clock = omega (arith, hb, ht);
              early = got time (drop (suc k) bs) ∷ rest;
              arrivals = refl;
              ready = (ht, omega (arith, long, length-drop (suc k) bs), r);
              left = ap (λ (n : ℕ). drop n bs ++ stream rest) (sym hl) ∙ sym q;
            })
    ]
