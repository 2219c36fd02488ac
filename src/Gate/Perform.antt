-- ===== src/Gate/Perform.antt =====
-- gate/src/main.rs: what a call of a task does to the shared state and to its connection. One call, or
-- one drop after the return, is one step.
use xddp.Prelude.{ℕ, List, Option, none, some, Bool, true, false, if◌then◌else◌, ◌==◌}
use xddp.Prelude.Float.{Float}
use xddp.Net.{IpNets}
use xddp.Metrics.{inc}
use xddp.Protocol.Base.{Result, ok}
use xddp.Protocol.Reader.{Conn, Frame}
use xddp.Protocol.Reader
use xddp.Socket.{SocketAddr}
use xddp.Limiter.Bucket.{Event, Policy}
use xddp.Limiter.State.{Limiter, Ticket, Verdict, panicked, refused, granted}
use xddp.Limiter.Address.{IpAddr}
use xddp.Limiter.Accept.{accept}
use xddp.Limiter.Tickets
use xddp.Backend.{Protection, Attempt, enter, drop_attempt}
use xddp.Backend
use xddp.Cache.Status.{get}
use xddp.IncomingProxy.{Stream}
use xddp.IncomingProxy
use xddp.Runtime.{Wire, policy}
use xddp.Gate.{
  State, Guard, permit, gauge, prelogin_time, attempt, in_handle, in_admission, Mark, Task, stop,
  unwind, crash, count, now, ask_policy, accept_ip, charge, ask_status, settle_ticket, mark,
  acquire, hold_gauge, hold_time, give_back, drop_admission, await_header, await_frame, write,
  status_reply, try_attempt, dial, end_attempt, relay, Live, Outside,
}
use xddp.Gate.Guards.{
  taken, apply_mark, pushed, guards, take_attempt, resume, wrote, is_done, dialed, at_time, After,
  limiter_of, with_limiter, protection_of, with_protection, drop_guard, record_error, drop_taken,
  take_at, drop_fields, leave,
}

module _ (fl : Float) (nets : IpNets) (parse : List ℕ → Option (Wire nets.IpNet)) {V : Type 0} where
  open fl use {F64}
  open nets use {IpNet}

  -- A panic aborts the process.
  abbrev pub admit_ticket :
      State F64 IpNet V → Live → (Bool → Task) → Verdict Ticket × Limiter F64 → After F64 IpNet V
  admit_ticket s c k (panicked, l) = (with_limiter fl s l, some (resume c crash))
  admit_ticket s c k (refused, l) = (with_limiter fl s l, some (resume c (k false)))
  admit_ticket s c k (granted t, l) =
      (with_limiter fl s l, some (record c { ticket = some t; rest = k true }))

  -- A task asks for a ticket when it has none.
  abbrev pub accept_once :
      State F64 IpNet V → Live → IpAddr → Policy → (Bool → Task) → Option Ticket → After F64 IpNet V
  accept_once s c ip p k none = admit_ticket s c k (accept fl (limiter_of fl s) ip p c.conn.clock)
  accept_once s c ip p k (some t) = (s, some (resume c unwind))

  abbrev pub after_charge :
      State F64 IpNet V → Live → (Bool → Task) → Verdict Bool × Limiter F64 → After F64 IpNet V
  after_charge s c k (panicked, l) = (with_limiter fl s l, some (resume c crash))
  after_charge s c k (refused, l) = (with_limiter fl s l, some (resume c (k false)))
  after_charge s c k (granted paid, l) = (with_limiter fl s l, some (resume c (k paid)))

  abbrev pub with_attempt :
      State F64 IpNet V → Live → (Bool → Task) → Option Attempt × Protection F64 → After F64 IpNet V
  with_attempt s c k (none, p) = (with_protection fl s p, some (resume c (k false)))
  with_attempt s c k (some a, p) =
      (with_protection fl s p, some (resume (pushed in_handle (attempt a) c) (k true)))

  abbrev pub finish_its_attempt :
      State F64 IpNet V → Live → Bool → Task → Option (Attempt × List Guard) → After F64 IpNet V
  finish_its_attempt s c succeeded k none = (s, some (resume c k))
  finish_its_attempt s c succeeded k (some (a, gs)) = (
    with_protection fl s (Backend.finish_attempt fl (protection_of fl s) a succeeded c.conn.clock),
    some (record c { in_handle = gs; rest = k }),
  )

  abbrev pub after_dial :
      State F64 IpNet V → Live → (Bool → Task) → Option (List ℕ) → After F64 IpNet V
  after_dial s c k none = (s, some (resume c (k false)))
  after_dial s c k (some bytes) = (s, some (record c { to_backend = bytes; rest = k true }))

  -- The methods of the ticket. Only a task that has one calls them.
  abbrev pub charge_ticket :
      State F64 IpNet V → Live → Event → Policy → (Bool → Task) → Option Ticket → After F64 IpNet V
  charge_ticket s c e p k none = (s, some (resume c unwind))
  charge_ticket s c e p k (some t) =
      after_charge s c k (Tickets.event fl (limiter_of fl s) t e p c.conn.clock)

  abbrev pub enter_ticket :
      State F64 IpNet V → Live → (Bool → Task) → Option Ticket → After F64 IpNet V
  enter_ticket s c k none = (s, some (resume c unwind))
  enter_ticket s c k (some t) =
      let (entered, t', l) = Tickets.enter_status fl (limiter_of fl s) t in
      (with_limiter fl s l, some (record c { ticket = some t'; rest = k entered }))

  abbrev pub admit_its_ticket : State F64 IpNet V → Live → Task → Option Ticket → After F64 IpNet V
  admit_its_ticket s c k none = (s, some (resume c unwind))
  admit_its_ticket s c k (some t) =
      let (t', l) = Tickets.mark_admitted fl (limiter_of fl s) t in
      (with_limiter fl s l, some (record c { ticket = some t'; rest = k }))

  abbrev pub mark_ticket :
      State F64 IpNet V → Live → Mark → Task → Option Ticket → After F64 IpNet V
  mark_ticket s c m k none = (s, some (resume c unwind))
  mark_ticket s c m k (some t) = (s, some (record c { ticket = some (apply_mark m t); rest = k }))

  abbrev pub after_header :
      State F64 IpNet V
      → Live
      → (Result (SocketAddr × SocketAddr) → Task)
      → Result (SocketAddr × SocketAddr) × Stream
      → After F64 IpNet V
  after_header s c k (r, stream) = (
    s,
    some (record c {
      conn = record c.conn { clock = stream.clock; arrivals = stream.arrivals };
      rest = k r;
    }),
  )

  abbrev pub after_frame :
      State F64 IpNet V → Live → (Result Frame → Task) → Result Frame × Conn → After F64 IpNet V
  after_frame s c k (r, conn) = (s, some (record c { conn = conn; rest = k r }))

  -- One call of the task, or one drop after its return.
  unfoldable pub perform : State F64 IpNet V → Live → Outside → Task → After F64 IpNet V
  unfolding drop_guard record_error
  perform s c o (stop r) = leave fl s c r c.in_handle
  perform s c o unwind = leave fl s c (ok tt) c.in_handle
  perform s c o crash = (s, some c)
  perform s c o (count n k) = (record s { metrics = inc s.metrics n }, some (resume c k))
  perform s c o (now k) = (s, some (resume c (k c.conn.clock)))
  perform s c o (ask_policy ip k) =
      (s, some (resume c (k (policy nets parse s.runtime ip o.unix c.conn.clock))))
  perform s c o (accept_ip ip p k) = accept_once s c ip p k c.ticket
  perform s c o (charge e p k) = charge_ticket s c e p k c.ticket
  perform s c o (ask_status k) = enter_ticket s c k c.ticket
  perform s c o (settle_ticket k) = admit_its_ticket s c k c.ticket
  perform s c o (mark m k) = mark_ticket s c m k c.ticket
  perform s c o (acquire scope p k) = if s.permits p == 0 then (s, some (resume c (k false))) else (
    record s { permits = taken s.permits p },
    some (resume (pushed scope (permit p) c) (k true)),
  )
  perform s c o (hold_gauge scope n k) =
      (record s { metrics = inc s.metrics n }, some (resume (pushed scope (gauge n) c) k))
  perform s c o (hold_time k) =
      (s, some (resume (pushed in_admission (prelogin_time c.conn.clock) c) (k c.conn.clock)))
  perform s c o (give_back scope i k) = drop_taken fl s c scope k (take_at i (guards scope c))
  perform s c o (drop_admission k) = drop_fields fl s c k c.in_admission
  perform s c o (await_header limit k) = after_header s c k (
      IncomingProxy.read nets c.client.peer s.cfg.incoming_proxy_v2 limit
        (record { clock = c.conn.clock; arrivals = c.conn.arrivals }))
  perform s c o (await_frame limits k) = after_frame s c k (Reader.read_frame limits c.conn)
  perform s c o (write bytes ms k) = (s, some (resume c (k (wrote o.io))))
  perform s c o (status_reply version k) =
      let (bytes, m) = get s.cache s.metrics version c.conn.clock in
      (record s { metrics = m }, some (resume c (k bytes)))
  perform s c o (try_attempt k) = with_attempt s c k (enter fl (protection_of fl s) c.conn.clock)
  perform s c o (dial bytes ms k) = after_dial s c k (dialed o.io bytes)
  perform s c o (end_attempt succeeded k) =
      finish_its_attempt s c succeeded k (take_attempt c.in_handle)
  perform s c o (relay k) = (s, some (resume c (k (is_done o.io))))

  unfoldable pub act : State F64 IpNet V → Live → Outside → After F64 IpNet V
  unfolding perform
  act s c o = perform s (at_time c o.now) o c.rest
