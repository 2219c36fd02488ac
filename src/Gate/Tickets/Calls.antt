-- ===== src/Gate/Tickets/Calls.antt =====
-- gate/src/main.rs: after a call of a task the limiter still counts the tickets of the connections.
use xddp.Prelude.{
  ℕ, ◌+◌, ◌^◌, ◌<◌, ◌≡◌, refl, List, ◌++◌, Option, none, some, Bool, true, inl, inr, Bool-cases,
  ◌==◌, length,
}
use xddp.Prelude.Float.{Float}
use xddp.Net.{IpNets}
use xddp.Config.Limits.{Limits}
use xddp.Protocol.Base.{ok}
use xddp.Backend.{Attempt, Protection}
use xddp.Limiter.Address.{IpAddr}
use xddp.Limiter.Bucket.{Event, Policy}
use xddp.Limiter.State.{Limiter, Ticket, Verdict, panicked, refused, granted}
use xddp.Limiter.System.{joined, on_accept, on_event, on_enter, on_admitted, on_marks}
use xddp.Runtime.{Wire}
use xddp.Gate.{
  State, Guard, permit, gauge, prelogin_time, attempt, Scope, Mark, handshake_seen,
  status_completed, rejected_by_server, Task, Live, Outside, stop, unwind, crash, now, count,
  ask_policy, accept_ip, charge, ask_status, settle_ticket, mark, acquire, hold_gauge, hold_time,
  give_back, drop_admission, await_header, await_frame, write, status_reply, try_attempt, dial,
  relay, in_handle, in_admission, in_task,
}
use xddp.Gate
use xddp.Gate.Guards.{at_time, limiter_of, pushed}
use xddp.Gate.Perform.{
  accept_once, admit_ticket, after_charge, with_attempt, finish_its_attempt, after_dial,
  charge_ticket, enter_ticket, admit_its_ticket, mark_ticket, perform, act,
}
use xddp.Gate.Tickets.{with_ticket, Limited, with_metrics-Limited, joined-Limited, Step-Limited}
use xddp.Gate.Tickets.Drops.{Fine, taken-Limited, fields-Limited, leave-Limited}

pushed-ticket : (scope : Scope) (g : Guard) (c : Live) → (pushed scope g c).ticket ≡ c.ticket
pushed-ticket in_handle g c = refl
pushed-ticket in_admission g c = refl
pushed-ticket in_task g c = refl

module _ (fl : Float) (nets : IpNets) (parse : List ℕ → Option (Wire nets.IpNet)) {V : Type 0}
    (cfg : Limits fl.F64) (xs ys : List Ticket) where
  open fl use {F64}
  open nets use {IpNet}

  granted-Limited :
      (s : State F64 IpNet V) (c : Live) (k : Bool → Task) (v : Verdict Ticket × Limiter F64)
      → c.ticket ≡ none
      → Limited cfg v.1 (joined v.0 (xs ++ ys))
      → Fine cfg xs ys (admit_ticket fl nets parse s c k v)
  granted-Limited s c k (panicked, l) e h = rw e h
  granted-Limited s c k (refused, l) e h = rw e h
  granted-Limited s c k (granted t, l) e h = joined-Limited cfg l xs ys t h

  accept-Limited :
      (s : State F64 IpNet V) (c : Live) (ip : IpAddr) (p : Policy) (k : Bool → Task)
      (t : Option Ticket)
      → c.ticket ≡ t
      → length (xs ++ ys) + 1 < 2 ^ 64
      → Limited cfg s.limiter (xs ++ with_ticket t ys)
      → Fine cfg xs ys (accept_once fl nets parse s c ip p k t)
  accept-Limited s c ip p k none e few h = granted-Limited s c k _ e (
      Step-Limited fl cfg _ _ (on_accept (limiter_of fl s) (xs ++ ys) ip p c.conn.clock few)
        (with_metrics-Limited cfg s.limiter _ s.metrics h))
  accept-Limited s c ip p k (some t) e few h = rw e h

  after_charge-Limited :
      (s : State F64 IpNet V) (c : Live) (k : Bool → Task) (v : Verdict Bool × Limiter F64)
      → Limited cfg v.1 (xs ++ with_ticket c.ticket ys)
      → Fine cfg xs ys (after_charge fl nets parse s c k v)
  after_charge-Limited s c k (panicked, l) h = h
  after_charge-Limited s c k (refused, l) h = h
  after_charge-Limited s c k (granted paid, l) h = h

  charge-Limited :
      (s : State F64 IpNet V) (c : Live) (e : Event) (p : Policy) (k : Bool → Task)
      (t : Option Ticket)
      → Limited cfg s.limiter (xs ++ with_ticket c.ticket ys)
      → Fine cfg xs ys (charge_ticket fl nets parse s c e p k t)
  charge-Limited s c e p k none h = h
  charge-Limited s c e p k (some t) h = after_charge-Limited s c k _ (
      Step-Limited fl cfg _ _ (on_event (limiter_of fl s) _ t e p c.conn.clock)
        (with_metrics-Limited cfg s.limiter _ s.metrics h))

  enter-Limited :
      (s : State F64 IpNet V) (c : Live) (k : Bool → Task) (t : Option Ticket)
      → c.ticket ≡ t
      → Limited cfg s.limiter (xs ++ with_ticket t ys)
      → Fine cfg xs ys (enter_ticket fl nets parse s c k t)
  enter-Limited s c k none e h = rw e h
  enter-Limited s c k (some t) e h =
      Step-Limited fl cfg _ _ (on_enter (limiter_of fl s) xs t ys)
        (with_metrics-Limited cfg s.limiter _ s.metrics h)

  admitted-Limited :
      (s : State F64 IpNet V) (c : Live) (k : Task) (t : Option Ticket)
      → c.ticket ≡ t
      → Limited cfg s.limiter (xs ++ with_ticket t ys)
      → Fine cfg xs ys (admit_its_ticket fl nets parse s c k t)
  admitted-Limited s c k none e h = rw e h
  admitted-Limited s c k (some t) e h =
      Step-Limited fl cfg _ _ (on_admitted (limiter_of fl s) xs t ys)
        (with_metrics-Limited cfg s.limiter _ s.metrics h)

  mark-Limited :
      (s : State F64 IpNet V) (c : Live) (m : Mark) (k : Task) (t : Option Ticket)
      → c.ticket ≡ t
      → Limited cfg s.limiter (xs ++ with_ticket t ys)
      → Fine cfg xs ys (mark_ticket fl nets parse s c m k t)
  mark-Limited s c m k none e h = rw e h
  mark-Limited s c handshake_seen k (some t) e h =
      Step-Limited fl cfg _ _ (on_marks s.limiter xs t ys true t.status_complete t.server_rejected)
        h
  mark-Limited s c status_completed k (some t) e h =
      Step-Limited fl cfg _ _ (on_marks s.limiter xs t ys t.handshake true t.server_rejected) h
  mark-Limited s c rejected_by_server k (some t) e h =
      Step-Limited fl cfg _ _ (on_marks s.limiter xs t ys t.handshake t.status_complete true) h

  attempt-Limited :
      (s : State F64 IpNet V) (c : Live) (k : Bool → Task) (v : Option Attempt × Protection F64)
      → Limited cfg s.limiter (xs ++ with_ticket c.ticket ys)
      → Fine cfg xs ys (with_attempt fl nets parse s c k v)
  attempt-Limited s c k (none, p) h = h
  attempt-Limited s c k (some a, p) h = h

  finish-Limited :
      (s : State F64 IpNet V) (c : Live) (x : Bool) (k : Task) (v : Option (Attempt × List Guard))
      → Limited cfg s.limiter (xs ++ with_ticket c.ticket ys)
      → Fine cfg xs ys (finish_its_attempt fl nets parse s c x k v)
  finish-Limited s c x k none h = h
  finish-Limited s c x k (some (a, gs)) h = h

  dial-Limited :
      (s : State F64 IpNet V) (c : Live) (k : Bool → Task) (bytes : Option (List ℕ))
      → Limited cfg s.limiter (xs ++ with_ticket c.ticket ys)
      → Fine cfg xs ys (after_dial fl nets parse s c k bytes)
  dial-Limited s c k none h = h
  dial-Limited s c k (some bytes) h = h

  acquire-Limited :
      (s : State F64 IpNet V) (c : Live) (o : Outside) (scope : Scope) (p : _) (k : Bool → Task)
      → Limited cfg s.limiter (xs ++ with_ticket c.ticket ys)
      → Fine cfg xs ys (perform fl nets parse s c o (acquire scope p k))
  unfolding perform
  acquire-Limited s c o scope p k h =
      elim (Bool-cases (s.permits p == 0))
        as (λ _. Fine cfg xs ys (perform fl nets parse s c o (acquire scope p k))) [
          | inl none_free ↦ rw none_free h
          | inr some_free ↦ rw (some_free, pushed-ticket scope (permit p) c) h
        ]

  perform-Limited :
      (s : State F64 IpNet V) (c : Live) (o : Outside) (task : Task)
      → length (xs ++ ys) + 1 < 2 ^ 64
      → Limited cfg s.limiter (xs ++ with_ticket c.ticket ys)
      → Fine cfg xs ys (perform fl nets parse s c o task)
  unfolding perform
  perform-Limited s c o (stop x) few h = leave-Limited fl nets parse cfg xs ys s c x c.in_handle h
  perform-Limited s c o unwind few h =
      leave-Limited fl nets parse cfg xs ys s c (ok tt) c.in_handle h
  perform-Limited s c o crash few h = h
  perform-Limited s c o (count n k) few h = h
  perform-Limited s c o (now k) few h = h
  perform-Limited s c o (ask_policy ip k) few h = h
  perform-Limited s c o (accept_ip ip p k) few h = accept-Limited s c ip p k c.ticket refl few h
  perform-Limited s c o (charge e p k) few h = charge-Limited s c e p k c.ticket h
  perform-Limited s c o (ask_status k) few h = enter-Limited s c k c.ticket refl h
  perform-Limited s c o (settle_ticket k) few h = admitted-Limited s c k c.ticket refl h
  perform-Limited s c o (mark m k) few h = mark-Limited s c m k c.ticket refl h
  perform-Limited s c o (acquire scope p k) few h = acquire-Limited s c o scope p k h
  perform-Limited s c o (hold_gauge scope n k) few h = rw (pushed-ticket scope (gauge n) c) h
  perform-Limited s c o (hold_time k) few h = h
  perform-Limited s c o (give_back scope i k) few h =
      taken-Limited fl nets parse cfg xs ys s c scope k _ h
  perform-Limited s c o (drop_admission k) few h =
      fields-Limited fl nets parse cfg xs ys s c k c.in_admission h
  perform-Limited s c o (await_header limit k) few h = h
  perform-Limited s c o (await_frame limits k) few h = h
  perform-Limited s c o (write bytes ms k) few h = h
  perform-Limited s c o (status_reply version k) few h = h
  perform-Limited s c o (try_attempt k) few h = attempt-Limited s c k _ h
  perform-Limited s c o (dial bytes ms k) few h = dial-Limited s c k _ h
  perform-Limited s c o (Gate.end_attempt succeeded k) few h = finish-Limited s c succeeded k _ h
  perform-Limited s c o (relay k) few h = h

  pub act-Limited :
      (s : State F64 IpNet V) (c : Live) (o : Outside)
      → length (xs ++ ys) + 1 < 2 ^ 64
      → Limited cfg s.limiter (xs ++ with_ticket c.ticket ys)
      → Fine cfg xs ys (act fl nets parse s c o)
  unfolding act
  act-Limited s c o few h = perform-Limited s (at_time c o.now) o c.rest few h
