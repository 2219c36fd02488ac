-- ===== src/Protocol/Reader.antt =====
-- gate/src/protocol.rs: `Frame`, `read_frame` and `read_bounded`, with their deadlines.
-- A connection is what will arrive on it, in order and with the time of each arrival. A read takes
-- the next arrival as far as there is room, and waits for it on a clock that stands still while the
-- program computes. Where nothing arrives in time, the timeout fires at its deadline.
pub mod Takes
pub mod Frames
pub mod Delivers
use xddp.Prelude.{
  ℕ, zero, suc, ◌+◌, ◌-◌, min, max, List, [], ◌∷◌, ◌++◌, Option, none, some, Bool, true, false,
  ◌||◌, ltb, leb, ◌==◌, if◌then◌else◌, length, take, drop,
}
use xddp.Prelude.Int.{ℤ, pos, pos_part, leb_ℤ}
use xddp.Protocol.Base.{
  Error, eof, io, var_int, oversized, invalid, deadline, slow, Result, ok, err,
}
use xddp.Protocol.Varint.{varint}

-- Bytes, or an error of the socket, at a time. No bytes are the end of the stream.
pub data Arrival : Type 0 where
  got : ℕ → List ℕ → Arrival
  failed : ℕ → Arrival

-- The connection, with what is left of the budget of the initial phases.
pub record Conn : Type 0 where
  pub clock : ℕ
  pub arrivals : List Arrival
  pub remaining : ℕ

pub record Frame : Type 0 where
  pub wire : List ℕ
  pub body_offset : ℕ

unfoldable pub body : Frame → List ℕ
body f = drop f.body_offset f.wire

pub record Filled : Type 0 where
  pub result : Result (List ℕ)
  pub clock : ℕ
  pub arrivals : List Arrival

-- The bytes are put in front of those that the loop reads later.
pub with_front : List ℕ → Filled → Filled
with_front bs f = record {
  result = elim f.result [ ok xs ↦ ok (bs ++ xs) | err e ↦ err e ];
  clock = f.clock;
  arrivals = f.arrivals;
}

abbrev pub until : ℕ → ℕ → ℕ → ℕ
until absolute progress now = min absolute (now + progress)

-- The timeout of a read that began at `now`.
abbrev pub timed_out : ℕ → ℕ → ℕ → List Arrival → Filled
timed_out absolute progress now arrivals = record {
  result = err (if until absolute progress now == absolute then deadline else slow);
  clock = until absolute progress now;
  arrivals = arrivals;
}

abbrev pub stopped : Error → ℕ → List Arrival → Filled
stopped e now arrivals = record { result = err e; clock = now; arrivals = arrivals }

-- `read_bounded`: the bytes that are still missing, the absolute deadline, the progress timeout,
-- and the connection.
pub read_bounded : ℕ → ℕ → ℕ → ℕ → List Arrival → Filled
read_bounded zero absolute progress now arrivals = record {
  result = ok [];
  clock = now;
  arrivals = arrivals;
}
read_bounded (suc k) absolute progress now [] =
    if leb absolute now then stopped deadline now [] else timed_out absolute progress now []
read_bounded (suc k) absolute progress now (failed time ∷ rest) =
    if leb absolute now
    then stopped deadline now (failed time ∷ rest)
    else if leb time (until absolute progress now)
    then stopped io (max now time) rest
    else timed_out absolute progress now (failed time ∷ rest)
read_bounded (suc k) absolute progress now (got time bs ∷ rest) =
    let now' = max now time in
    let more = with_front bs (read_bounded (suc k - length bs) absolute progress now' rest) in
    if leb absolute now
    then stopped deadline now (got time bs ∷ rest)
    else if leb time (until absolute progress now)
    then (if length bs == 0
        then stopped eof now' rest
        else if leb (length bs) (suc k)
        then more
        else record {
          result = ok (take (suc k) bs);
          clock = now';
          arrivals = got time (drop (suc k) bs) ∷ rest;
        })
    else timed_out absolute progress now (got time bs ∷ rest)

pub record Limits : Type 0 where
  pub max_len : ℕ
  pub absolute : ℕ
  pub progress : ℕ
  pub first_progress : ℕ

abbrev pub after : Conn → Filled → Conn
after s f = record { clock = f.clock; arrivals = f.arrivals; remaining = s.remaining }

abbrev pub wait : Limits → List ℕ → ℕ
wait l [] = l.first_progress
wait l (b ∷ bs) = l.progress

-- What the loop does with `varint(&prefix[..used])`: `more` is its next round.
abbrev pub decided :
    Conn
    → List ℕ
    → Result (ℕ × List ℕ) × Conn
    → Result (Option (ℤ × ℕ))
    → Result (ℕ × List ℕ) × Conn
decided s prefix more (err e) = (err e, s)
decided s prefix more (ok none) = more
decided s prefix more (ok (some (n, used))) =
    if leb_ℤ n (pos 0) then (err invalid, s) else (ok (pos_part n, prefix), s)

-- The loop over the length prefix: the rounds that are left of three, and the bytes read so far.
-- It gives the length and the whole prefix.
pub read_prefix : Limits → ℕ → List ℕ → Conn → Result (ℕ × List ℕ) × Conn
read_prefix l zero prefix s = (err var_int, s)
read_prefix l (suc k) prefix s =
    let f = read_bounded 1 l.absolute (wait l prefix) s.clock s.arrivals in
    let out : Result (ℕ × List ℕ) × Conn = elim f.result [
      | err e ↦ (err e, after s f)
      | ok b ↦
          let s' = record (after s f) { remaining = s.remaining - 1 } in
          let more = read_prefix l k (prefix ++ b) s' in
          decided s' (prefix ++ b) more (varint (prefix ++ b))
    ] in
    if s.remaining == 0 then (err oversized, s) else out

abbrev pub framed : List ℕ → Conn → Result (List ℕ) → Result Frame × Conn
framed prefix s (err e) = (err e, s)
framed prefix s (ok xs) = (ok (record { wire = prefix ++ xs; body_offset = length prefix }), s)

-- The body, once the length is known.
pub read_body : Limits → ℕ → List ℕ → Conn → Result Frame × Conn
read_body l len prefix s =
    let f = read_bounded len l.absolute l.progress s.clock s.arrivals in
    if ltb l.max_len len || ltb s.remaining len
    then (err oversized, s)
    else framed prefix (record (after s f) { remaining = s.remaining - len }) f.result

abbrev pub read_rest : Limits → Conn → Result (ℕ × List ℕ) → Result Frame × Conn
read_rest l s (err e) = (err e, s)
read_rest l s (ok (len, prefix)) = read_body l len prefix s

unfoldable pub read_frame : Limits → Conn → Result Frame × Conn
unfolding read_prefix read_body read_bounded with_front
read_frame l s = let (r, s') = read_prefix l 3 [] s in read_rest l s' r
