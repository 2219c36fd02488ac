-- ===== src/Relay.antt =====
-- gate/src/relay.rs: the upload budget, `Budget` and `Monitored`. Times are numbers of nanoseconds.
pub mod Spending
pub mod Guard
pub mod Stalls
mod Examples
use xddp.Prelude.{
  ℕ, ◌+◌, ◌-◌, ◌*◌, ◌%◌, ◌^◌, min, max, Bool, true, false, not, ◌&&◌, ltb, if◌then◌else◌,
}
use xddp.Config.Settings.{Upload}
use xddp.Metrics.{Metrics, add, inc}

abbrev pub second : ℕ
second = 1000000000

-- The credit is a u128, in billionths of a byte.
pub record Budget : Type 0 where
  pub credit : ℕ
  pub last : ℕ
  pub cfg : Upload

abbrev pub cap : Upload → ℕ
cap cfg = cfg.burst_bytes * second % 2 ^ 128

unfoldable pub new_budget : Upload → ℕ → Budget
new_budget cfg now = record { credit = cap cfg; last = now; cfg = cfg }

unfoldable pub take : Budget → ℕ → ℕ → Bool × Budget
take b bytes now =
    let refill = min ((now - b.last) * b.cfg.bytes_per_second) (2 ^ 128 - 1) in
    let credit = min (min (b.credit + refill) (2 ^ 128 - 1)) (cap b.cfg) in
    let cost = bytes * second % 2 ^ 128 in
    if ltb credit cost
    then (false, record b { credit = 0; last = max b.last now })
    else (true, record b { credit = credit - cost; last = max b.last now })

pub record Monitored : Type 0 where
  pub budget : Budget
  pub metrics : Metrics
  pub flagged : Bool

-- What a poll of a reader or a writer gives: the number of bytes, when it is ready.
pub data Poll : Type 0 where
  pending failed : Poll
  ready : ℕ → Poll

-- The bytes were over the budget, for the first time or again.
abbrev pub flag : Bool → Metrics → Metrics
flag true metrics = metrics
flag false metrics = inc metrics 39

abbrev pub exceeded : Monitored → ℕ → Poll × Monitored
exceeded m n = (
  if m.budget.cfg.enforce then failed else ready n,
  record m { metrics = flag m.flagged m.metrics; flagged = true },
)

abbrev pub charged : Monitored → ℕ → Bool × Budget → Poll × Monitored
charged m n (true, b) = (ready n, record m { budget = b })
charged m n (false, b) = exceeded (record m { budget = b }) n

-- `poll_read`, by the result of the inner reader. The chunk that is refused is not forwarded.
unfoldable pub poll_read : Monitored → Poll → ℕ → Poll × Monitored
unfolding take
poll_read m pending now = (pending, m)
poll_read m failed now = (failed, m)
poll_read m (ready n) now =
    let m' = record m { metrics = add m.metrics 40 n } in
    if ltb 0 n then charged m' n (take m.budget n now) else (ready n, m')

-- `poll_write` and `poll_write_vectored`.
unfoldable pub poll_write : Monitored → Poll → Poll × Monitored
poll_write m pending = (pending, m)
poll_write m failed = (failed, m)
poll_write m (ready n) = (ready n, record m { metrics = add m.metrics 41 n })
