-- ===== src/Relay/Examples.antt =====
-- gate/src/relay.rs on concrete data: instances of the theorems.
use xddp.Prelude.{
  ℕ, ◌+◌, ◌-◌, ◌*◌, ◌/◌, ◌≤◌, ◌≡◌, refl, List, [], ◌∷◌, none, Bool, true, false, leb, All, arith,
}
use xddp.Config.Settings.{Upload}
use xddp.Relay.{second, new_budget, take, poll_read, Poll, pending, ready}
use xddp.Relay.Spending.{forwarded, forwarded-within}
use xddp.Relay.Guard.{millisecond, new_activity, touch, is_idle, Guarded, stalled, check}
use xddp.Relay.Stalls.{since, polled, Overdue, check-stalled, touches, idle-quiet}

-- A thousand bytes at once, and then one hundred each second.
abbrev upload : Upload
upload = record { bytes_per_second = 100; burst_bytes = 1000; enforce = true }

-- The second read is over the budget, and the last one is not.
abbrev reads : List (Poll × ℕ)
reads = (ready 900, 0) ∷ (ready 201, second) ∷ (pending, 2 * second) ∷ (ready 150, 3 * second) ∷ []

within :
    forwarded (record { budget = new_budget upload 0; metrics = λ i. 0; flagged = false }) reads
    ≡ 1050
unfolding forwarded poll_read new_budget take
within = refl

forwarded-within_example :
    forwarded (record { budget = new_budget upload 0; metrics = λ i. 0; flagged = false }) reads
      * second
    ≤ upload.burst_bytes * second + (3 * second - 0) * upload.bytes_per_second
forwarded-within_example =
    forwarded-within upload (λ i. 0) 0 reads (3 * second) refl (omega arith)
      (
        (omega arith, omega arith),
        (
          (omega arith, omega arith),
          ((omega arith, omega arith), ((omega arith, omega arith), tt)),
        ),
      )

abbrev over : ℕ → ℕ → Bool
over t now = leb t now

over_later : (t now : ℕ) → over t now ≡ true → t ≤ now
over_later t now h = ground (arith, h)

-- A deadline of five milliseconds.
abbrev guard : Guarded
guard = record { stall_ms = 5; timer = none; eof = false; metrics = λ i. 0; activity = none }

abbrev polls : List (Poll × ℕ)
polls = (pending, 1000000) ∷ (ready 3, 2000000) ∷ (pending, 3000000) ∷ (pending, 4000000) ∷ []

cut_off : (check over (polled over guard polls) pending 8000000).0 ≡ stalled
unfolding check polled
cut_off = refl

check-stalled_example : Overdue over guard.stall_ms (since none polls) pending 8000000
check-stalled_example =
    check-stalled over over_later guard polls pending 8000000 (omega arith) refl cut_off

idle : is_idle (touches (new_activity 7) (1000000 ∷ 2000000 ∷ [])) 3 5000000 ≡ true
unfolding touches touch new_activity
idle = refl

idle-quiet_example :
    All (λ t. (t - 7) / millisecond + 3 ≤ (5000000 - 7) / millisecond) (1000000 ∷ 2000000 ∷ [])
idle-quiet_example =
    idle-quiet 7 (1000000 ∷ 2000000 ∷ []) 3 5000000 (omega arith, (omega arith, tt)) (omega arith)
      idle
