-- ===== src/Gate/Tickets.antt =====
-- gate/src/main.rs with gate/src/limiter.rs: the tickets that the connections hold, and what the calls
-- of a task do to them and to the limiter.
pub mod Drops
pub mod Calls
pub mod Reached
use xddp.Prelude.{
  ℕ, ◌+◌, ◌%◌, ◌^◌, ◌<◌, ◌≡◌, refl, sym, ◌∙◌, List, [], ◌∷◌, ◌++◌, Option, none, some, Bool, true,
  false, inl, inr, Bool-cases, ◌==◌, length, arith,
}
use xddp.Prelude.Float.{Float}
use xddp.Net.{IpNets}
use xddp.Metrics.{Metrics}
use xddp.Config.Limits.{Limits}
use xddp.Protocol.Base.{Result, ok, err}
use xddp.Backend.{Attempt, Protection}
use xddp.Limiter.Address.{IpAddr}
use xddp.Limiter.Bucket.{Event, Policy}
use xddp.Limiter.State.{Limiter, Ticket, Verdict, panicked, refused, granted}
use xddp.Limiter.Accept.{accept}
use xddp.Limiter.Tickets
use xddp.Limiter.System
use xddp.Limiter.System.{
  System, joined, on_accept, on_event, on_enter, on_admitted, on_marks, on_drop,
}
use xddp.Limiter.System.Held.{held, held-middle}
use xddp.Limiter.System.Moves.{length-middle}
use xddp.Limiter.System.Invariant.{Consistent, Step-Consistent}
use xddp.Limiter.System.Caps.{Capped}
use xddp.Limiter.System.Caps.Reached.{Step-Capped}
use xddp.Runtime.{Wire}
use xddp.Gate.{
  State, Guard, permit, gauge, prelogin_time, attempt, Scope, Mark, handshake_seen,
  status_completed, rejected_by_server, Task, Live, Outside, stop, unwind, now, count, ask_policy,
  accept_ip, charge, ask_status, settle_ticket, mark, acquire, hold_gauge, hold_time, give_back,
  drop_admission, await_header, await_frame, write, status_reply, try_attempt, dial, relay,
  in_handle, in_admission, in_task,
}
use xddp.Gate
use xddp.Gate.Guards.{
  guards, take_attempt, at_time, After, drop_guard, drop_fields, end_task, leave_admission,
  drop_its_ticket, leave, limiter_of, protection_of, pushed,
}
use xddp.Gate.Perform.{
  accept_once, admit_ticket, after_charge, with_attempt, finish_its_attempt, after_dial,
  charge_ticket, enter_ticket, admit_its_ticket, mark_ticket, perform, act,
}

abbrev pub with_ticket : Option Ticket → List Ticket → List Ticket
with_ticket none ts = ts
with_ticket (some t) ts = t ∷ ts

-- The tickets of the connections, in their order.
unfoldable pub tickets : List Live → List Ticket
tickets [] = []
tickets (c ∷ cs) = with_ticket c.ticket (tickets cs)

abbrev pub with_live : Option Live → List Ticket → List Ticket
with_live none ts = ts
with_live (some c) ts = with_ticket c.ticket ts

-- The limiter counts these tickets, under the caps of its configuration.
pub record Limited {F : Type 0} (cfg : Limits F) (l : Limiter F) (ts : List Ticket) : Type 0 where
  pub cfg_same : l.cfg ≡ cfg
  pub consistent : Consistent l ts
  pub capped : Capped cfg ts

-- The limiter does not read its metrics.
pub with_metrics-Limited :
    {F : Type 0} (cfg : Limits F) (l : Limiter F) (ts : List Ticket) (m : Metrics)
    → Limited cfg l ts
    → Limited cfg (record l { metrics = m }) ts
with_metrics-Limited cfg l ts m h = record {
  cfg_same = h.cfg_same;
  consistent = record {
    ip_counted = h.consistent.ip_counted;
    prefix_counted = h.consistent.prefix_counted;
    ip_table = h.consistent.ip_table;
    prefix_table = h.consistent.prefix_table;
    few = h.consistent.few;
  };
  capped = h.capped;
}

-- The order of the tickets does not matter.
pub inserted-Limited :
    {F : Type 0} (cfg : Limits F) (l : Limiter F) (xs : List Ticket) (t : Ticket) (ys : List Ticket)
    → Limited cfg l (t ∷ (xs ++ ys))
    → Limited cfg l (xs ++ t ∷ ys)
unfolding held
inserted-Limited cfg l xs t ys h = record {
  cfg_same = h.cfg_same;
  consistent = record {
    ip_counted = λ k. h.consistent.ip_counted k ∙ sym (held-middle true xs t ys k);
    prefix_counted = λ k. h.consistent.prefix_counted k ∙ sym (held-middle false xs t ys k);
    ip_table = h.consistent.ip_table;
    prefix_table = h.consistent.prefix_table;
    few = omega (arith, h.consistent.few, length-middle xs t ys);
  };
  capped = record {
    connections_ip = λ k. rw (held-middle true xs t ys k) (h.capped.connections_ip k);
    connections_prefix = λ k. rw (held-middle false xs t ys k) (h.capped.connections_prefix k);
    prelogin_ip = λ k. rw (held-middle true xs t ys k) (h.capped.prelogin_ip k);
    prelogin_prefix = λ k. rw (held-middle false xs t ys k) (h.capped.prelogin_prefix k);
    status_ip = λ k. rw (held-middle true xs t ys k) (h.capped.status_ip k);
  };
}

pub joined-Limited :
    {F : Type 0} (cfg : Limits F) (l : Limiter F) (xs ys : List Ticket) (t : Ticket)
    → Limited cfg l (joined (granted t) (xs ++ ys))
    → Limited cfg l (xs ++ t ∷ ys)
joined-Limited cfg l xs ys t h = inserted-Limited cfg l xs t ys h

pub Step-Limited :
    (fl : Float) (cfg : Limits fl.F64) (s s' : System fl.F64)
    → System.Step fl s s'
    → Limited cfg s.limiter s.live
    → Limited cfg s'.limiter s'.live
Step-Limited fl cfg s s' step h =
    let (same, caps) = Step-Capped fl s s' step h.consistent (rw h.cfg_same h.capped) in
    record {
      cfg_same = same ∙ h.cfg_same;
      consistent = Step-Consistent fl s s' step h.consistent;
      capped = rw h.cfg_same at caps;
    }
