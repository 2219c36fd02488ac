-- ===== src/Gate/Guards.antt =====
-- gate/src/main.rs: what a connection holds, `record_error`, and the drops that follow the return of
-- a task: the variables of `handle`, its ticket, the admission, and the variables of the task around
-- it. One drop is one step.
use xddp.Prelude.{
  ℕ, zero, suc, ◌+◌, ◌-◌, ◌/◌, ◌^◌, min, max, List, [], ◌∷◌, ◌++◌, Option, none, some, Bool, true,
  false, if◌then◌else◌,
}
use xddp.Prelude.Float.{Float}
use xddp.Metrics.{Metrics, add, inc, dec}
use xddp.Protocol.Base.{
  Error, eof, io, var_int, oversized, invalid, unsupported, deadline, slow, Result, ok, err,
}
use xddp.Limiter.State.{Limiter, Ticket}
use xddp.Limiter.Tickets
use xddp.Backend.{Protection, Attempt, drop_attempt}
use xddp.Gate.{
  Semaphore, sockets, prelogin, admitted_slots, backend_slots, status_slots, State, Guard, permit,
  gauge, prelogin_time, attempt, Scope, in_handle, in_admission, in_task, Mark, handshake_seen,
  status_completed, rejected_by_server, Task, stop, Live, Outcome, complete, broken, timed_out,
}

abbrev pub same : Semaphore → Semaphore → Bool
same sockets sockets = true
same prelogin prelogin = true
same admitted_slots admitted_slots = true
same backend_slots backend_slots = true
same status_slots status_slots = true
same _ _ = false

abbrev pub taken : (Semaphore → ℕ) → Semaphore → Semaphore → ℕ
taken permits s k = if same s k then permits k - 1 else permits k

abbrev pub given : (Semaphore → ℕ) → Semaphore → Semaphore → ℕ
given permits s k = if same s k then permits k + 1 else permits k

-- `record_error`
unfoldable pub record_error : Metrics → Error → Metrics
record_error m var_int = inc m 8
record_error m oversized = inc m 9
record_error m unsupported = inc m 10
record_error m deadline = inc m 11
record_error m slow = inc m 12
record_error m invalid = inc m 5
record_error m eof = m
record_error m io = m

abbrev pub apply_mark : Mark → Ticket → Ticket
apply_mark handshake_seen t = record t { handshake = true }
apply_mark status_completed t = record t { status_complete = true }
apply_mark rejected_by_server t = record t { server_rejected = true }

-- Variables are dropped in the opposite order of their declaration, fields in that order.
abbrev pub pushed : Scope → Guard → Live → Live
pushed in_handle g c = record c { in_handle = g ∷ c.in_handle }
pushed in_admission g c = record c { in_admission = c.in_admission ++ g ∷ [] }
pushed in_task g c = record c { in_task = g ∷ c.in_task }

abbrev pub guards : Scope → Live → List Guard
guards in_handle c = c.in_handle
guards in_admission c = c.in_admission
guards in_task c = c.in_task

abbrev pub with_guards : Scope → Live → List Guard → Live
with_guards in_handle c gs = record c { in_handle = gs }
with_guards in_admission c gs = record c { in_admission = gs }
with_guards in_task c gs = record c { in_task = gs }

-- The attempt among the variables of `handle`, or the guard behind the newest `i`, and the others.
abbrev pub kept : {A : Type 0} → Guard → Option (A × List Guard) → Option (A × List Guard)
kept g none = none
kept g (some (a, others)) = some (a, g ∷ others)

abbrev pub take_attempt : List Guard → Option (Attempt × List Guard)
take_attempt [] = none
take_attempt (attempt a ∷ gs) = some (a, gs)
take_attempt (g ∷ gs) = kept g (take_attempt gs)

abbrev pub take_at : ℕ → List Guard → Option (Guard × List Guard)
take_at i [] = none
take_at zero (g ∷ gs) = some (g, gs)
take_at (suc i) (g ∷ gs) = kept g (take_at i gs)

abbrev pub resume : Live → Task → Live
resume c k = record c { rest = k }

abbrev pub wrote : Outcome → Result (Unit {0})
wrote complete = ok tt
wrote timed_out = err deadline
wrote broken = err io

abbrev pub is_done : Outcome → Bool
is_done complete = true
is_done _ = false

-- What the backend has got, if it was reached in time.
abbrev pub dialed : Outcome → Option (List ℕ) → Option (List ℕ)
dialed complete bytes = bytes
dialed _ bytes = none

-- The connection is at the time of the call, or later when it has waited.
abbrev pub at_time : Live → ℕ → Live
at_time c t = record c { conn = record c.conn { clock = max c.conn.clock t } }

-- The state after a step, and the connection unless it has ended.
abbrev pub After : Type 0 → Type 0 → Type 0 → Type 0
After F N V = State F N V × Option Live

module _ (fl : Float) {N V : Type 0} where
  open fl use {F64}

  -- The limiter and the circuit breaker count in the shared metrics.
  abbrev pub limiter_of : State F64 N V → Limiter F64
  limiter_of s = record s.limiter { metrics = s.metrics }

  abbrev pub with_limiter : State F64 N V → Limiter F64 → State F64 N V
  with_limiter s l = record s { limiter = l; metrics = l.metrics }

  abbrev pub protection_of : State F64 N V → Protection F64
  protection_of s = record s.backend_protection { metrics = s.metrics }

  abbrev pub with_protection : State F64 N V → Protection F64 → State F64 N V
  with_protection s p = record s { backend_protection = p; metrics = p.metrics }

  -- The drop of a guard. The metric of the time before the login is in microseconds.
  unfoldable pub drop_guard : State F64 N V → ℕ → Guard → State F64 N V
  drop_guard s t (permit p) = record s { permits = given s.permits p }
  drop_guard s t (gauge n) = record s { metrics = dec s.metrics n }
  drop_guard s t (prelogin_time start) = record s {
    metrics = inc (add s.metrics 18 (min ((t - start) / 1000) (2 ^ 64 - 1))) 19;
  }
  drop_guard s t (attempt a) = with_protection s (drop_attempt fl (protection_of s) a t)

  abbrev pub drop_taken :
      State F64 N V → Live → Scope → Task → Option (Guard × List Guard) → After F64 N V
  drop_taken s c scope k none = (s, some (resume c k))
  drop_taken s c scope k (some (g, gs)) =
      (drop_guard s c.conn.clock g, some (resume (with_guards scope c gs) k))

  -- `drop(admission)`, one field at a time.
  abbrev pub drop_fields : State F64 N V → Live → Task → List Guard → After F64 N V
  drop_fields s c k [] = (s, some (resume c k))
  drop_fields s c k (g ∷ gs) = (drop_guard s c.conn.clock g, some (record c { in_admission = gs }))

  abbrev pub end_task : State F64 N V → Live → Result (Unit {0}) → List Guard → After F64 N V
  end_task s c (err e) gs =
      (record s { metrics = record_error s.metrics e }, some (resume c (stop (ok tt))))
  end_task s c (ok x) [] = (s, none)
  end_task s c (ok x) (g ∷ gs) = (drop_guard s c.conn.clock g, some (record c { in_task = gs }))

  abbrev pub leave_admission : State F64 N V → Live → Result (Unit {0}) → List Guard → After F64 N V
  leave_admission s c r [] = end_task s c r c.in_task
  leave_admission s c r (g ∷ gs) =
      (drop_guard s c.conn.clock g, some (record c { in_admission = gs }))

  abbrev pub drop_its_ticket :
      State F64 N V → Live → Result (Unit {0}) → Option Ticket → After F64 N V
  drop_its_ticket s c r none = leave_admission s c r c.in_admission
  drop_its_ticket s c r (some t) = (
    with_limiter s (Tickets.drop_ticket fl (limiter_of s) t c.conn.clock),
    some (record c { ticket = none }),
  )

  abbrev pub leave : State F64 N V → Live → Result (Unit {0}) → List Guard → After F64 N V
  leave s c r [] = drop_its_ticket s c r c.ticket
  leave s c r (g ∷ gs) = (drop_guard s c.conn.clock g, some (record c { in_handle = gs }))
