-- ===== src/Backend/Examples.antt =====
-- gate/src/backend.rs on concrete data: instances of the theorems.
use xddp.Prelude.{
  ℕ, ◌≡◌, refl, [], ◌∷◌, inl, inr, true, false, ◌==◌, ◌&&◌, none, some, if◌then◌else◌, arith,
}
use xddp.Prelude.Whole.{whole}
use xddp.Config.Settings.{BackendProtection}
use xddp.Backend.{Protection, Attempt, new_protection, enter, finish_attempt}
use xddp.Backend.Dials.{
  Dials, Reach, starts, steps, dialed, refused, completed, all_slots, Reach-all_slots,
}
use xddp.Backend.Probes.{current}
use xddp.Backend.Probes.Reached.{Reach-one_probe}
use xddp.Backend.Probes.Shut.{Period, begins, goes_on, dials_in, Reach-shut, Reach-cooldown}

abbrev cfg : BackendProtection ℕ
cfg = record {
  max_connecting = 4;
  failure_threshold = 1;
  cooldown_ms = 100;
  attempts = record { per_second = 0; burst = 0 };
}

abbrev attempt : Attempt
attempt = record { generation = 0; finished = false }

abbrev probing_attempt : Attempt
probing_attempt = record { generation = 1; finished = false }

abbrev fresh : Protection ℕ
fresh = new_protection whole cfg 8 (λ i. 0) 0

abbrev entered : Protection ℕ → ℕ → Protection ℕ
entered p now = (enter whole p now).1

-- A dial that is let in, and a second.
abbrev one_dial : Dials ℕ
one_dial = record { protection = entered fresh 10; live = attempt ∷ [] }

abbrev two_dials : Dials ℕ
two_dials = record { protection = entered one_dial.protection 11; live = attempt ∷ attempt ∷ [] }

-- One of them fails, and the circuit is open for 100 ms; then a probe is let in.
abbrev opened : Dials ℕ
opened = record {
  protection = finish_attempt whole two_dials.protection attempt false 20;
  live = attempt ∷ [];
}

abbrev probed : Dials ℕ
probed = record {
  protection = entered opened.protection 200000000;
  live = probing_attempt ∷ attempt ∷ [];
}

let_in_first : enter whole fresh 10 ≡ (some attempt, one_dial.protection)
unfolding new_protection enter
let_in_first = refl

let_in_second : enter whole one_dial.protection 11 ≡ (some attempt, two_dials.protection)
unfolding new_protection enter
let_in_second = refl

probe_entered : enter whole opened.protection 200000000 ≡ (some probing_attempt, probed.protection)
unfolding new_protection enter finish_attempt
probe_entered = refl

abbrev Reached : Dials ℕ → Type 0
Reached d = Reach whole cfg 8 (λ i. 0) 0 d

dial_reached : Reached one_dial
dial_reached = steps starts (dialed 10 let_in_first)

abbrev probe_reached : Reached probed
probe_reached =
    steps
      (steps (steps (steps starts (dialed 10 let_in_first)) (dialed 11 let_in_second))
        (completed [] attempt (attempt ∷ []) false 20))
      (dialed 200000000 probe_entered)

open_until : probed.protection.state.retry_at ≡ some 100000020
unfolding new_protection enter finish_attempt
open_until = refl

Reach-all_slots_example : all_slots whole one_dial ≡ 4
Reach-all_slots_example = Reach-all_slots whole cfg 8 (λ i. 0) 0 one_dial dial_reached

Reach-one_probe_example :
    current probed.protection.state.generation probed.live
    ≡ (if probed.protection.state.probing then 1 else 0)
Reach-one_probe_example =
    Reach-one_probe whole cfg 8 (λ i. 0) 0 probed probe_reached 100000020 (omega arith) open_until

-- Another dial comes, and the other attempt of the time before succeeds late.
abbrev after_probe : Dials ℕ
after_probe = record {
  protection = finish_attempt whole probed.protection attempt true 400000000;
  live = probing_attempt ∷ [];
}

no_second : enter whole probed.protection 300000000 ≡ (none, probed.protection)
unfolding new_protection enter finish_attempt
no_second = refl

probe_runs : probed.protection.state.probing ≡ true
unfolding new_protection enter finish_attempt
probe_runs = refl

late_success :
    (probed.protection.state.probing && attempt.generation == probed.protection.state.generation)
    ≡ false
unfolding new_protection enter finish_attempt
late_success = refl

abbrev probing_period : Period whole 100000020 probed.protection.state probed after_probe
probing_period =
    goes_on (goes_on begins (refused 300000000 no_second) (inr probe_runs))
      (completed (probing_attempt ∷ []) attempt [] true 400000000) late_success

Reach-shut_example :
    (dials_in whole 100000020 probed.protection.state probed after_probe probing_period ≡ 0)
    × (after_probe.protection.state ≡ probed.protection.state)
Reach-shut_example =
    Reach-shut whole cfg 8 (λ i. 0) 0 probed after_probe probe_reached 100000020 probing_period
      (omega arith) open_until

-- While the circuit is open a dial comes, and the other attempt succeeds late.
abbrev cooled : Dials ℕ
cooled = record {
  protection = finish_attempt whole opened.protection attempt true 50000000;
  live = [];
}

none_early : enter whole opened.protection 40000000 ≡ (none, opened.protection)
unfolding new_protection enter finish_attempt
none_early = refl

no_probe :
    (opened.protection.state.probing && attempt.generation == opened.protection.state.generation)
    ≡ false
unfolding new_protection enter finish_attempt
no_probe = refl

abbrev cooldown_period : Period whole 100000020 opened.protection.state opened cooled
cooldown_period =
    goes_on (goes_on begins (refused 40000000 none_early) (inl (omega arith)))
      (completed [] attempt [] true 50000000) no_probe

abbrev two_reached : Reached two_dials
two_reached = steps (steps starts (dialed 10 let_in_first)) (dialed 11 let_in_second)

attempt_current : (attempt.generation == two_dials.protection.state.generation) ≡ true
unfolding new_protection enter
attempt_current = refl

first_failure : two_dials.protection.cfg.failure_threshold ≡ 1
unfolding new_protection enter
first_failure = refl

Reach-cooldown_example :
    (dials_in whole 100000020 opened.protection.state opened cooled cooldown_period ≡ 0)
    × (cooled.protection.state.retry_at ≡ some 100000020)
unfolding new_protection enter
Reach-cooldown_example =
    Reach-cooldown whole cfg 8 (λ i. 0) 0 two_dials.protection [] attempt (attempt ∷ []) 20 cooled
      two_reached cooldown_period (omega arith) (omega (arith, first_failure))
      (omega (arith, first_failure)) attempt_current (inl (omega (arith, first_failure)))
