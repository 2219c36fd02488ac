-- ===== src/Relay/Guard.antt =====
-- gate/src/relay.rs: `Activity` and `Guarded`. A sleep is its deadline; whether it is over when it is
-- polled is tokio's, `over`.
use xddp.Prelude.{
  ℕ, ◌+◌, ◌-◌, ◌*◌, ◌/◌, ◌^◌, min, List, [], ◌∷◌, Option, none, some, Bool, true, ltb, leb, ◌==◌,
  if◌then◌else◌,
}
use xddp.Metrics.{Metrics, inc}
use xddp.Relay.{Poll, pending, failed, ready}

abbrev pub millisecond : ℕ
millisecond = 1000000

pub record Activity : Type 0 where
  pub start : ℕ
  pub last_ms : ℕ

unfoldable pub new_activity : ℕ → Activity
new_activity now = record { start = now; last_ms = 0 }

unfoldable pub touch : Activity → ℕ → Activity
touch a now = record a { last_ms = min ((now - a.start) / millisecond) (2 ^ 64 - 1) }

-- Until when `expired` sleeps, and its test when it wakes.
abbrev pub wakes_at : Activity → ℕ → ℕ
wakes_at a ms = a.start + min (a.last_ms + ms) (2 ^ 64 - 1) * millisecond

abbrev pub is_idle : Activity → ℕ → ℕ → Bool
is_idle a ms now = leb (a.last_ms + ms) ((now - a.start) / millisecond)

-- The loop of `expired`, by the activity and the time at each wake: when it returns, if it does.
unfoldable pub expired : ℕ → List (Activity × ℕ) → Option ℕ
expired ms [] = none
expired ms ((a, now) ∷ wakes) = if is_idle a ms now then some now else expired ms wakes

pub record Guarded : Type 0 where
  pub stall_ms : ℕ
  pub timer : Option ℕ
  pub eof : Bool
  pub metrics : Metrics
  pub activity : Option Activity

-- What `check` gives: the result of the writer, or the error of a stalled write.
pub data Checked : Type 0 where
  passed : Poll → Checked
  stalled : Checked

-- The sleep that runs, or a new one.
abbrev pub sleep_until : Guarded → ℕ → ℕ
sleep_until g now = elim g.timer [ none ↦ now + g.stall_ms * millisecond | some t ↦ t ]

module _ (over : ℕ → ℕ → Bool) where
  unfoldable pub check : Guarded → Poll → ℕ → Checked × Guarded
  check g failed now = (passed failed, record g { timer = none })
  check g (ready n) now = (passed (ready n), record g { timer = none })
  check g pending now =
      let t = sleep_until g now in
      if g.stall_ms == 0
      then (passed pending, g)
      else if over t now
      then (stalled, record g { timer = some t; metrics = inc g.metrics 45 })
      else (passed pending, record g { timer = some t })

abbrev touched : Option Activity → ℕ → Option Activity
touched none now = none
touched (some a) now = some (touch a now)

-- `poll_read`, by the room of the buffer and the result of the inner reader: a read of no bytes into
-- some room is the end of the stream.
unfoldable pub guarded_read : Guarded → ℕ → Poll → ℕ → Poll × Guarded
unfolding touch
guarded_read g space pending now = (pending, g)
guarded_read g space failed now = (failed, g)
guarded_read g space (ready n) now =
    if n == 0
    then (ready n, record g { eof = if ltb 0 space then true else g.eof })
    else (ready n, record g { activity = touched g.activity now })
