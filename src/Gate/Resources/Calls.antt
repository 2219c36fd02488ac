-- ===== src/Gate/Resources/Calls.antt =====
-- gate/src/main.rs: a call of a task loses no permit and makes none.
use xddp.Prelude.{
  ℕ, ◌+◌, ◌≡◌, refl, List, Option, none, some, Bool, inl, inr, Bool-cases, ◌==◌, arith,
}
use xddp.Prelude.Float.{Float}
use xddp.Net.{IpNets}
use xddp.Backend.{Protection, Attempt, enter}
use xddp.Backend.Dials.{enter-slots, enter-none_slots, finish_attempt-slots}
use xddp.Protocol.Base.{ok}
use xddp.Limiter.Address.{IpAddr}
use xddp.Limiter.State.{Limiter, Ticket, Verdict, panicked, refused, granted}
use xddp.Runtime.{Wire}
use xddp.Limiter.Bucket.{Event, Policy}
use xddp.Gate.{
  Semaphore, sockets, prelogin, admitted_slots, backend_slots, status_slots, State, Guard, permit,
  gauge, prelogin_time, attempt, Scope, in_handle, in_admission, in_task, Mark, Task, Live, Outside,
  stop, unwind, crash, now, count, ask_policy, accept_ip, charge, ask_status, settle_ticket, mark,
  acquire, hold_gauge, hold_time, give_back, drop_admission, await_header, await_frame, write,
  status_reply, try_attempt, dial, relay,
}
use xddp.Gate
use xddp.Gate.Guards.{guards, at_time, protection_of}
use xddp.Gate.Perform.{
  admit_ticket, accept_once, after_charge, with_attempt, finish_its_attempt, after_dial,
  charge_ticket, enter_ticket, admit_its_ticket, mark_ticket, perform, act,
}
use xddp.Gate.Resources.{
  Resource, permits_of, dial_slots, free, held_in, held_by, total, held-pushed, taken-total,
  take_at-TakenGuard, fields-total, leave-total,
}
use xddp.Gate.Resources.Taken.{acquired, weight-gauge, weight-time, Taken, take_attempt-Taken}

module _ (fl : Float) (nets : IpNets) (parse : List ℕ → Option (Wire nets.IpNet)) {V : Type 0} where
  open fl use {F64}
  open nets use {IpNet}

  admit-total :
      (r : Resource) (s : State F64 IpNet V) (c : Live) (k : Bool → Task)
      (v : Verdict Ticket × Limiter F64)
      → total r (admit_ticket fl nets parse s c k v) ≡ free r s + held_by r c
  admit-total r s c k (panicked, l) = refl
  admit-total r s c k (refused, l) = refl
  admit-total r s c k (granted t, l) = refl

  accept-total :
      (r : Resource) (s : State F64 IpNet V) (c : Live) (ip : IpAddr) (p : Policy) (k : Bool → Task)
      (t : Option Ticket)
      → total r (accept_once fl nets parse s c ip p k t) ≡ free r s + held_by r c
  accept-total r s c ip p k none = admit-total r s c k _
  accept-total r s c ip p k (some t) = refl

  after_charge-total :
      (r : Resource) (s : State F64 IpNet V) (c : Live) (k : Bool → Task)
      (v : Verdict Bool × Limiter F64)
      → total r (after_charge fl nets parse s c k v) ≡ free r s + held_by r c
  after_charge-total r s c k (panicked, l) = refl
  after_charge-total r s c k (refused, l) = refl
  after_charge-total r s c k (granted paid, l) = refl

  charge-total :
      (r : Resource) (s : State F64 IpNet V) (c : Live) (e : Event) (p : Policy) (k : Bool → Task)
      (t : Option Ticket)
      → total r (charge_ticket fl nets parse s c e p k t) ≡ free r s + held_by r c
  charge-total r s c e p k none = refl
  charge-total r s c e p k (some t) = after_charge-total r s c k _

  enter-total :
      (r : Resource) (s : State F64 IpNet V) (c : Live) (k : Bool → Task) (t : Option Ticket)
      → total r (enter_ticket fl nets parse s c k t) ≡ free r s + held_by r c
  enter-total r s c k none = refl
  enter-total r s c k (some t) = refl

  admitted-total :
      (r : Resource) (s : State F64 IpNet V) (c : Live) (k : Task) (t : Option Ticket)
      → total r (admit_its_ticket fl nets parse s c k t) ≡ free r s + held_by r c
  admitted-total r s c k none = refl
  admitted-total r s c k (some t) = refl

  mark-total :
      (r : Resource) (s : State F64 IpNet V) (c : Live) (m : Mark) (k : Task) (t : Option Ticket)
      → total r (mark_ticket fl nets parse s c m k t) ≡ free r s + held_by r c
  mark-total r s c m k none = refl
  mark-total r s c m k (some t) = refl

  attempt-total :
      (r : Resource) (s : State F64 IpNet V) (c : Live) (k : Bool → Task) (t : ℕ)
      (v : Option Attempt × Protection F64)
      → enter fl (protection_of fl s) t ≡ v
      → total r (with_attempt fl nets parse s c k v) ≡ free r s + held_by r c
  attempt-total (permits_of p) s c k t (none, q) e = refl
  attempt-total dial_slots s c k t (none, q) e = omega (arith, enter-none_slots fl _ q t e)
  attempt-total (permits_of p) s c k t (some a, q) e =
      omega (arith, held-pushed (permits_of p) in_handle (attempt a) c)
  attempt-total dial_slots s c k t (some a, q) e =
      omega (arith, enter-slots fl _ q a t e, held-pushed dial_slots in_handle (attempt a) c)

  finish-total :
      (r : Resource) (s : State F64 IpNet V) (c : Live) (done : Bool) (k : Task)
      (v : Option (Attempt × List Guard))
      → Taken r v (held_in r c.in_handle)
      → total r (finish_its_attempt fl nets parse s c done k v) ≡ free r s + held_by r c
  finish-total r s c done k none e = refl
  finish-total (permits_of p) s c done k (some (a, gs)) e = omega (arith, e)
  finish-total dial_slots s c done k (some (a, gs)) e =
      omega (arith, e, finish_attempt-slots fl (protection_of fl s) a done c.conn.clock)

  dial-total :
      (r : Resource) (s : State F64 IpNet V) (c : Live) (k : Bool → Task) (bytes : Option (List ℕ))
      → total r (after_dial fl nets parse s c k bytes) ≡ free r s + held_by r c
  dial-total r s c k none = refl
  dial-total r s c k (some bytes) = refl

  acquire-total :
      (r : Resource) (s : State F64 IpNet V) (c : Live) (o : Outside) (scope : Scope)
      (p : Semaphore) (k : Bool → Task)
      → total r (perform fl nets parse s c o (acquire scope p k)) ≡ free r s + held_by r c
  unfolding perform
  acquire-total r s c o scope p k =
      elim (Bool-cases (s.permits p == 0))
        as (λ _.
          total r (perform fl nets parse s c o (acquire scope p k)) ≡ free r s + held_by r c) [
            | inl none_free ↦ rw none_free refl
            | inr some_free ↦ rw some_free (
                omega (
                  arith,
                  held-pushed r scope (permit p) c,
                  acquired r s.permits s.backend_protection.slots p some_free,
                ))
          ]

  perform-total :
      (r : Resource) (s : State F64 IpNet V) (c : Live) (o : Outside) (task : Task)
      → total r (perform fl nets parse s c o task) ≡ free r s + held_by r c
  unfolding perform
  perform-total r s c o (stop x) = leave-total fl nets parse r s c x c.in_handle refl
  perform-total r s c o unwind = leave-total fl nets parse r s c (ok tt) c.in_handle refl
  perform-total r s c o crash = refl
  perform-total r s c o (count n k) = refl
  perform-total r s c o (now k) = refl
  perform-total r s c o (ask_policy ip k) = refl
  perform-total r s c o (accept_ip ip p k) = accept-total r s c ip p k c.ticket
  perform-total r s c o (charge e p k) = charge-total r s c e p k c.ticket
  perform-total r s c o (ask_status k) = enter-total r s c k c.ticket
  perform-total r s c o (settle_ticket k) = admitted-total r s c k c.ticket
  perform-total r s c o (mark m k) = mark-total r s c m k c.ticket
  perform-total r s c o (acquire scope p k) = acquire-total r s c o scope p k
  perform-total r s c o (hold_gauge scope n k) =
      omega (arith, held-pushed r scope (gauge n) c, weight-gauge r n)
  perform-total r s c o (hold_time k) =
      omega (
        arith,
        held-pushed r in_admission (prelogin_time c.conn.clock) c,
        weight-time r c.conn.clock,
      )
  perform-total r s c o (give_back scope i k) =
      taken-total fl nets parse r s c scope k _ (take_at-TakenGuard r i (guards scope c))
  perform-total r s c o (drop_admission k) = fields-total fl nets parse r s c k c.in_admission refl
  perform-total r s c o (await_header limit k) = refl
  perform-total r s c o (await_frame limits k) = refl
  perform-total r s c o (write bytes ms k) = refl
  perform-total r s c o (status_reply version k) = refl
  perform-total r s c o (try_attempt k) = attempt-total r s c k c.conn.clock _ refl
  perform-total r s c o (dial bytes ms k) = dial-total r s c k _
  perform-total r s c o (Gate.end_attempt succeeded k) =
      finish-total r s c succeeded k _ (take_attempt-Taken r c.in_handle)
  perform-total r s c o (relay k) = refl

  -- One call of a task, or one drop after its return, neither makes nor loses a permit of a semaphore
  -- or a slot of the circuit breaker: what is free and what the connection holds is the same in all
  -- before and after, whatever the call, its answer and the path that the task takes.
  pub act-total :
      (r : Resource) (s : State F64 IpNet V) (c : Live) (o : Outside)
      → total r (act fl nets parse s c o) ≡ free r s + held_by r c
  unfolding act
  act-total r s c o = perform-total r s (at_time c o.now) o c.rest
