-- ===== src/Gate/Paths/Holding.antt =====
-- gate/src/main.rs: the connections that wait, dial or relay are no more than the permits that the
-- connections hold.
use xddp.Prelude.{ℕ, ◌+◌, ◌≤◌, List, [], ◌∷◌, Option, arith}
use xddp.Limiter.State.{Ticket}
use xddp.Gate.{
  prelogin, admitted_slots, backend_slots, Guard, Task, Live, await_header, await_frame, write,
  dial, relay,
}
use xddp.Gate.Resources.{permits_of, dial_slots, held_in}
use xddp.Gate.Resources.Reached.{held_all}
use xddp.Gate.Paths.{IsFit, reads_header, reads_frame, writes, dials, relays}
use xddp.Gate.Paths.Fits.{AllFit}

-- What a connection waits for: the network before its relay, its dial, or its dial or relay.
abbrev pub dialing : Task → ℕ
dialing (dial bytes ms k) = 1
dialing _ = 0

abbrev pub waiting : Task → ℕ
waiting (await_header limit k) = 1
waiting (await_frame limits k) = 1
waiting (write bytes ms k) = 1
waiting (dial bytes ms k) = 1
waiting _ = 0

abbrev pub connected : Task → ℕ
connected (dial bytes ms k) = 1
connected (relay k) = 1
connected _ = 0

unfoldable pub count_of : (Task → ℕ) → List Live → ℕ
count_of f [] = 0
count_of f (c ∷ cs) = f c.rest + count_of f cs

record Holding (task : Task) (gs adm : List Guard) : Type 0 where
  slot_held : waiting task ≤ held_in (permits_of prelogin) adm
  admitted_held : connected task ≤ held_in (permits_of admitted_slots) gs
  backend_held : connected task ≤ held_in (permits_of backend_slots) gs
  dial_held : dialing task ≤ held_in dial_slots gs

IsFit-Holding :
    {gs adm : List Guard} {t : Option Ticket} {task : Task}
    → IsFit gs adm t task
    → Holding task gs adm
IsFit-Holding (reads_header w h) = record {
  slot_held = w;
  admitted_held = omega arith;
  backend_held = omega arith;
  dial_held = omega arith;
}
IsFit-Holding (reads_frame w h) = record {
  slot_held = w;
  admitted_held = omega arith;
  backend_held = omega arith;
  dial_held = omega arith;
}
IsFit-Holding (writes w h) = record {
  slot_held = w;
  admitted_held = omega arith;
  backend_held = omega arith;
  dial_held = omega arith;
}
IsFit-Holding (dials slots dial_slot w h) = record {
  slot_held = w;
  admitted_held = slots.admitted;
  backend_held = slots.backend;
  dial_held = dial_slot;
}
IsFit-Holding (relays slots admitted h) = record {
  slot_held = omega arith;
  admitted_held = slots.admitted;
  backend_held = slots.backend;
  dial_held = omega arith;
}
IsFit-Holding _ = record {
  slot_held = omega arith;
  admitted_held = omega arith;
  backend_held = omega arith;
  dial_held = omega arith;
}

pub record AllHolding (cs : List Live) : Type 0 where
  pub all_slots : count_of waiting cs ≤ held_all (permits_of prelogin) cs
  pub all_admitted : count_of connected cs ≤ held_all (permits_of admitted_slots) cs
  pub all_backend : count_of connected cs ≤ held_all (permits_of backend_slots) cs
  pub all_dials : count_of dialing cs ≤ held_all dial_slots cs

pub AllFit-AllHolding : (cs : List Live) → AllFit cs → AllHolding cs
unfolding AllFit count_of held_all
AllFit-AllHolding [] h = record {
  all_slots = omega arith;
  all_admitted = omega arith;
  all_backend = omega arith;
  all_dials = omega arith;
}
AllFit-AllHolding (c ∷ cs) (fit, h) =
    let first = IsFit-Holding fit in
    let rest = AllFit-AllHolding cs h in
    record {
      all_slots = omega (arith, first.slot_held, rest.all_slots);
      all_admitted = omega (arith, first.admitted_held, rest.all_admitted);
      all_backend = omega (arith, first.backend_held, rest.all_backend);
      all_dials = omega (arith, first.dial_held, rest.all_dials);
    }
