-- ===== src/Relay/Spending.antt =====
-- gate/src/relay.rs: how many bytes the upload budget lets through.
use xddp.Prelude.{
  ℕ, ◌+◌, ◌-◌, ◌*◌, ◌%◌, ◌^◌, ◌≤◌, ◌<◌, ◌≡◌, refl, ap, sym, ◌∙◌, min, max, List, [], ◌∷◌, Bool,
  true, false, ltb, if◌then◌else◌, inl, inr, Bool-cases, All, arith,
}
use native.Mathlib.Nat.{add-mul}
use xddp.Config.Settings.{Upload}
use xddp.Metrics.{Metrics, add}
use xddp.Relay.{
  second, Budget, cap, new_budget, take, Monitored, Poll, pending, failed, ready, flag, charged,
  poll_read,
}

-- What a chunk of `n` bytes costs at most: it and what is left were there before, or were earned since.
record Spent (b : Budget) (n now : ℕ) (fine : Bool) (b' : Budget) : Type 0 where
  paid :
      (if fine then n else 0) * second + b'.credit
      ≤ b.credit + (now - b.last) * b.cfg.bytes_per_second
  last : b'.last ≡ max b.last now
  cfg : b'.cfg ≡ b.cfg

take-Spent : (b : Budget) (n now : ℕ) → n < 2 ^ 64 → Spent b n now (take b n now).0 (take b n now).1
unfolding take
take-Spent b n now h =
    let refill = min ((now - b.last) * b.cfg.bytes_per_second) (2 ^ 128 - 1) in
    let credit = min (min (b.credit + refill) (2 ^ 128 - 1)) (cap b.cfg) in
    elim (Bool-cases (ltb credit (n * second % 2 ^ 128))) [
      | inl over ↦ rw over (record { paid = omega arith; last = refl; cfg = refl })
      | inr within ↦
          let covered : n * second ≤ credit = ground (arith, within) in
          rw within (record { paid = omega (arith, covered); last = refl; cfg = refl })
    ]

-- Time that is cut in two earns the same.
earned :
    (last now end rate : ℕ)
    → last ≤ now
    → now ≤ end
    → (now - last) * rate + (end - now) * rate ≡ (end - last) * rate
earned last now end rate h k =
    sym (add-mul (now - last) (end - now) rate) ∙ ap (λ (t : ℕ). t * rate) (omega (arith, h, k))

-- The bytes of a read that is forwarded.
abbrev pub bytes_of : Poll → ℕ
bytes_of pending = 0
bytes_of failed = 0
bytes_of (ready n) = n

-- What a reader forwards over a sequence of polls, each with what the inner reader gave and its time.
unfoldable pub forwarded : Monitored → List (Poll × ℕ) → ℕ
forwarded m [] = 0
forwarded m ((r, now) ∷ polls) =
    let (out, m') = poll_read m r now in bytes_of out + forwarded m' polls

-- A poll pays for what it forwards, when the budget is enforced.
record Paid (m : Monitored) (now : ℕ) (r : Poll × Monitored) : Type 0 where
  within :
      bytes_of r.0 * second + r.1.budget.credit
      ≤ m.budget.credit + (r.1.budget.last - m.budget.last) * m.budget.cfg.bytes_per_second
  later : m.budget.last ≤ r.1.budget.last
  clock : r.1.budget.last ≤ max m.budget.last now
  cfg : r.1.budget.cfg ≡ m.budget.cfg

same_budget :
    (m : Monitored) (now : ℕ) (out : Poll) (metrics : Metrics)
    → bytes_of out ≡ 0
    → Paid m now (out, record m { metrics = metrics })
same_budget m now out metrics h = record {
  within = omega (arith, h);
  later = omega arith;
  clock = omega arith;
  cfg = refl;
}

span : (last now rate : ℕ) → (now - last) * rate ≡ (max last now - last) * rate
span last now rate = ap (λ (t : ℕ). t * rate) (omega arith)

Spent-Paid :
    (m : Monitored) (n now : ℕ) (fine : Bool) (b : Budget) (out : Poll) (metrics : Metrics)
    (flagged : Bool)
    → Spent m.budget n now fine b
    → bytes_of out ≡ (if fine then n else 0)
    → Paid m now (out, record { budget = b; metrics = metrics; flagged = flagged })
Spent-Paid m n now fine b out metrics flagged s h = record {
  within = omega (
    arith,
    s.paid,
    ap (λ (t : ℕ). t * second) h,
    span m.budget.last now m.budget.cfg.bytes_per_second,
    ap (λ (t : ℕ). (t - m.budget.last) * m.budget.cfg.bytes_per_second) s.last,
  );
  later = omega (arith, s.last);
  clock = omega (arith, s.last);
  cfg = s.cfg;
}

charged-Paid :
    (m : Monitored) (metrics : Metrics) (n now : ℕ) (fine : Bool) (b : Budget)
    → m.budget.cfg.enforce ≡ true
    → Spent m.budget n now fine b
    → Paid m now (charged (record m { metrics = metrics }) n (fine, b))
charged-Paid m metrics n now true b e s =
    Spent-Paid m n now true b (ready n) metrics m.flagged s refl
charged-Paid m metrics n now false b e s =
    let enforced : b.cfg.enforce ≡ true = ap (λ (u : Upload). u.enforce) s.cfg ∙ e in
    Spent-Paid m n now false b (if b.cfg.enforce then failed else ready n) (flag m.flagged metrics)
      true s (ap (λ (t : Bool). bytes_of (if t then failed else ready n)) enforced)

poll_read-Paid :
    (m : Monitored) (r : Poll) (now : ℕ)
    → m.budget.cfg.enforce ≡ true
    → bytes_of r < 2 ^ 64
    → Paid m now (poll_read m r now)
unfolding poll_read
poll_read-Paid m pending now e h = same_budget m now pending m.metrics refl
poll_read-Paid m failed now e h = same_budget m now failed m.metrics refl
poll_read-Paid m (ready n) now e h = elim (Bool-cases (ltb 0 n)) [
  | inl some ↦ rw some (
      charged-Paid m (add m.metrics 40 n) n now (take m.budget n now).0 (take m.budget n now).1 e
        (take-Spent m.budget n now h))
  | inr nothing ↦
      rw nothing (same_budget m now (ready n) (add m.metrics 40 n) (ground (arith, nothing)))
]

-- The polls come before the end, and a read is no longer than a usize says.
abbrev pub Before : ℕ → List (Poll × ℕ) → Type 0
Before end polls = All (λ poll. (poll.1 ≤ end) × (bytes_of poll.0 < 2 ^ 64)) polls

forwarded-Paid :
    (m : Monitored) (polls : List (Poll × ℕ)) (end : ℕ)
    → m.budget.cfg.enforce ≡ true
    → m.budget.last ≤ end
    → Before end polls
    → forwarded m polls * second
      ≤ m.budget.credit + (end - m.budget.last) * m.budget.cfg.bytes_per_second
unfolding forwarded
forwarded-Paid m [] end e h k = omega arith
forwarded-Paid m ((r, now) ∷ polls) end e h ((in_time, fits), others) =
    let p = poll_read-Paid m r now e fits in
    let m' = (poll_read m r now).1 in
    let rate = m.budget.cfg.bytes_per_second in
    let on_time : m'.budget.last ≤ end = omega (arith, p.clock, h, in_time) in
    let rest =
      forwarded-Paid m' polls end (ap (λ (u : Upload). u.enforce) p.cfg ∙ e) on_time others in
    let same_rate : (end - m'.budget.last) * m'.budget.cfg.bytes_per_second
        ≡ (end - m'.budget.last) * rate =
      ap (λ (u : Upload). (end - m'.budget.last) * u.bytes_per_second) p.cfg in
    omega (
      arith,
      p.within,
      rest,
      same_rate,
      earned m.budget.last m'.budget.last end rate p.later on_time,
    )

-- The upload limit. A connection whose budget is enforced forwards in any sequence of polls, in any
-- order of their times, no more than the configured burst and what the rate has earned from its start
-- to the latest poll.
pub forwarded-within :
    (cfg : Upload) (metrics : Metrics) (start : ℕ) (polls : List (Poll × ℕ)) (end : ℕ)
    → cfg.enforce ≡ true
    → start ≤ end
    → Before end polls
    → forwarded (record { budget = new_budget cfg start; metrics = metrics; flagged = false }) polls
        * second
      ≤ cfg.burst_bytes * second + (end - start) * cfg.bytes_per_second
unfolding new_budget
forwarded-within cfg metrics start polls end e h k =
    let paid =
      forwarded-Paid (record { budget = new_budget cfg start; metrics = metrics; flagged = false })
        polls end e h k in
    omega (arith, paid)
