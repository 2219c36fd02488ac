-- ===== src/Gate/Resources/Taken.antt =====
-- gate/src/main.rs: a permit that is taken, and an attempt that is taken out of the variables.
use xddp.Prelude.{
  ℕ, ◌+◌, ◌≡◌, refl, List, [], ◌∷◌, Option, none, some, false, if◌then◌else◌, ◌==◌, arith,
}
use xddp.Backend.{Attempt}
use xddp.Gate.{
  Semaphore, sockets, prelogin, admitted_slots, backend_slots, status_slots, Guard, permit, gauge,
  prelogin_time, attempt,
}
use xddp.Gate.Guards.{same, taken, kept, take_attempt}
use xddp.Gate.Resources.{Resource, permits_of, dial_slots, one_of_them, weight, held_in}

taken-same :
    (permits : Semaphore → ℕ) (p k : Semaphore)
    → (permits p == 0) ≡ false
    → taken permits p k + (if same p k then 1 else 0) ≡ permits k
taken-same permits sockets sockets h = ground (arith, h)
taken-same permits prelogin prelogin h = ground (arith, h)
taken-same permits admitted_slots admitted_slots h = ground (arith, h)
taken-same permits backend_slots backend_slots h = ground (arith, h)
taken-same permits status_slots status_slots h = ground (arith, h)
taken-same permits p k h = omega arith

pub acquired :
    (r : Resource) (permits : Semaphore → ℕ) (slots : ℕ) (p : Semaphore)
    → (permits p == 0) ≡ false
    → one_of_them r (taken permits p) slots + weight r (permit p) ≡ one_of_them r permits slots
acquired (permits_of q) permits slots p h = taken-same permits p q h
acquired dial_slots permits slots p h = omega arith

pub weight-gauge : (r : Resource) (n : ℕ) → weight r (gauge n) ≡ 0
weight-gauge (permits_of p) n = refl
weight-gauge dial_slots n = refl

pub weight-time : (r : Resource) (t : ℕ) → weight r (prelogin_time t) ≡ 0
weight-time (permits_of p) t = refl
weight-time dial_slots t = refl

abbrev pub Taken : Resource → Option (Attempt × List Guard) → ℕ → Type 0
Taken r none n = Unit {0}
Taken r (some (a, others)) n = weight r (attempt a) + held_in r others ≡ n

kept-Taken :
    (r : Resource) (g : Guard) (v : Option (Attempt × List Guard)) (n : ℕ)
    → Taken r v n
    → Taken r (kept g v) (weight r g + n)
unfolding held_in
kept-Taken r g none n e = tt
kept-Taken r g (some (a, others)) n e = omega (arith, e)

pub take_attempt-Taken : (r : Resource) (gs : List Guard) → Taken r (take_attempt gs) (held_in r gs)
unfolding held_in
take_attempt-Taken r [] = tt
take_attempt-Taken r (attempt a ∷ gs) = refl
take_attempt-Taken r (permit p ∷ gs) = kept-Taken r _ _ _ (take_attempt-Taken r gs)
take_attempt-Taken r (gauge n ∷ gs) = kept-Taken r _ _ _ (take_attempt-Taken r gs)
take_attempt-Taken r (prelogin_time t ∷ gs) = kept-Taken r _ _ _ (take_attempt-Taken r gs)
