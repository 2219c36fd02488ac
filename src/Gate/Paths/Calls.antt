-- ===== src/Gate/Paths/Calls.antt =====
-- gate/src/main.rs: every call of a task leaves its rest fit for what the connection holds.
use xddp.Prelude.{ℕ, ◌≡◌, refl, List, [], ◌∷◌, Option, none, some, true, false}
use xddp.Prelude.Float.{Float}
use xddp.Net.{IpNets}
use xddp.Protocol.Base.{ok, err}
use xddp.Protocol.Reader.{Conn}
use xddp.Limiter.State.{Ticket}
use xddp.Limiter.Accept.{accept}
use xddp.Limiter.Tickets.{event, enter_status}
use xddp.Backend.{enter}
use xddp.Runtime.{Wire}
use xddp.Gate
use xddp.Gate.{
  State, Guard, permit, gauge, prelogin_time, in_handle, in_admission, in_task, Task, stop, unwind,
  Client, Live, Outside, acquire, give_back, charge, accept_ip, drop_admission, try_attempt,
  end_attempt, dial, relay,
}
use xddp.Gate.Guards.{
  take_attempt, dialed, protection_of, limiter_of, at_time, drop_taken, take_at, drop_fields,
}
use xddp.Gate.Perform.{perform, act}
use xddp.Gate.Paths.{
  IsFit, returns, fails, unwinds, crashes, counts, reads_clock, asks_policy, asks_ticket, charges,
  enters, is_let_in, marks, acquires, acquires_slot, acquires_socket, holds_gauge, holds_prelogin,
  holds_active, holds_time, releases, releases_slot, releases_socket, drops_admission, reads_header,
  reads_frame, writes, replies, tries, dials, finishes, relays, remaining,
}
use xddp.Gate.Paths.Kept.{
  FitAfter, admitted_now, leave-FitAfter, admit-FitAfter, after_charge-FitAfter, attempt-FitAfter,
  dial-FitAfter, finish-FitAfter, acquire-FitAfter, enter-FitAfter,
}

abbrev pub live_of :
    Client → Conn → List Guard → List ℕ → List Guard → List Guard → Option Ticket → Task → Live
live_of client conn tk b gs adm t task = record {
  client = client;
  conn = conn;
  in_handle = gs;
  ticket = t;
  in_admission = adm;
  in_task = tk;
  to_backend = b;
  rest = task;
}

module _ (fl : Float) (nets : IpNets) (parse : List ℕ → Option (Wire nets.IpNet)) {V : Type 0} where
  open fl use {F64}
  open nets use {IpNet}

  taken-FitAfter :
      (s : State F64 IpNet V) (c : Live) (k : Task) (v : Option (Guard × List Guard))
      → IsFit (remaining c.in_handle v) c.in_admission c.ticket k
      → FitAfter (drop_taken fl s c in_handle k v)
  taken-FitAfter s c k none h = h
  taken-FitAfter s c k (some (g, gs)) h = h

  slot-FitAfter :
      (s : State F64 IpNet V) (c : Live) (k : Task) (v : Option (Guard × List Guard))
      → IsFit c.in_handle (remaining c.in_admission v) c.ticket k
      → FitAfter (drop_taken fl s c in_admission k v)
  slot-FitAfter s c k none h = h
  slot-FitAfter s c k (some (g, gs)) h = h

  socket-FitAfter :
      (s : State F64 IpNet V) (c : Live) (k : Task) (v : Option (Guard × List Guard))
      → IsFit c.in_handle c.in_admission c.ticket k
      → FitAfter (drop_taken fl s c in_task k v)
  socket-FitAfter s c k none h = h
  socket-FitAfter s c k (some (g, gs)) h = h

  fields-FitAfter :
      (s : State F64 IpNet V) (c : Live) (k : Task) (gs : List Guard)
      → IsFit c.in_handle [] c.ticket k
      → c.in_admission ≡ gs
      → c.rest ≡ drop_admission k
      → FitAfter (drop_fields fl s c k gs)
  fields-FitAfter s c k [] h e r = rw e h
  fields-FitAfter s c k (g ∷ gs) h e r = rw r (drops_admission h)

  -- A ticket that the limiter refuses a status connection is marked.
  abbrev pub Rejecting : State F64 IpNet V → Option Ticket → Type 0
  Rejecting s t =
      (t' : Ticket)
      → t ≡ some t'
      → (enter_status fl (limiter_of fl s) t').0 ≡ false
      → (enter_status fl (limiter_of fl s) t').1.server_rejected ≡ true

  perform-FitAfter :
      (s : State F64 IpNet V) (o : Outside) (client : Client) (conn : Conn) (tk : List Guard)
      (b : List ℕ) (gs adm : List Guard) (t : Option Ticket) (task : Task)
      → Rejecting s t
      → IsFit gs adm t task
      → FitAfter (perform fl nets parse s (live_of client conn tk b gs adm t task) o task)
  unfolding perform
  perform-FitAfter s o client conn tk b gs adm t _ r (returns {x = x} h) =
      leave-FitAfter fl nets parse s (live_of client conn tk b gs adm t (stop (ok x))) (ok x)
        (λ gs' adm'. returns h) (λ gs' adm'. returns refl)
  perform-FitAfter s o client conn tk b gs adm t _ r (fails {e = e}) =
      leave-FitAfter fl nets parse s (live_of client conn tk b gs adm t (stop (err e))) (err e)
        (λ gs' adm'. fails) (λ gs' adm'. fails)
  perform-FitAfter s o client conn tk b gs adm t _ r unwinds =
      leave-FitAfter fl nets parse s (live_of client conn tk b gs adm t unwind) (ok tt)
        (λ gs' adm'. unwinds) (λ gs' adm'. unwinds)
  perform-FitAfter s o client conn tk b gs adm t _ r crashes = crashes
  perform-FitAfter s o client conn tk b gs adm t _ r (counts h) = h
  perform-FitAfter s o client conn tk b gs adm t _ r (reads_clock h) = h _
  perform-FitAfter s o client conn tk b gs adm t _ r (asks_policy h) = h _
  perform-FitAfter s o client conn tk b gs adm _ _ r (asks_ticket {ip = ip} {p = p} {k = k} h n) =
      admit-FitAfter fl nets parse s (live_of client conn tk b gs adm none (accept_ip ip p k)) k
        (accept fl (limiter_of fl s) ip p conn.clock) h n
  perform-FitAfter s o client conn tk b gs adm _ _ r (charges {t = t} {e = e} {p = p} {k = k} h) =
      after_charge-FitAfter fl nets parse s
        (live_of client conn tk b gs adm (some t) (charge e p k)) k
        (event fl (limiter_of fl s) t e p conn.clock) h
  perform-FitAfter s o client conn tk b gs adm _ _ r (enters {t = t} {k = k} h n) =
      enter-FitAfter fl nets parse s (live_of client conn tk b gs adm (some t) (Gate.ask_status k))
        k t (r t refl) h n
  perform-FitAfter s o client conn tk b gs adm _ _ r (is_let_in {t = t} h) =
      h _ (admitted_now fl (limiter_of fl s) t)
  perform-FitAfter s o client conn tk b gs adm _ _ r (marks h) = h
  perform-FitAfter s o client conn tk b gs adm t _ r (acquires {p = p} {k = k} h n) =
      acquire-FitAfter fl nets parse s (live_of client conn tk b gs adm t (acquire in_handle p k)) o
        in_handle p k h n
  perform-FitAfter s o client conn tk b gs adm t _ r (acquires_slot {p = p} {k = k} h n) =
      acquire-FitAfter fl nets parse s
        (live_of client conn tk b gs adm t (acquire in_admission p k)) o in_admission p k h n
  perform-FitAfter s o client conn tk b gs adm t _ r (acquires_socket {p = p} {k = k} h) =
      acquire-FitAfter fl nets parse s (live_of client conn tk b gs adm t (acquire in_task p k)) o
        in_task p k (h true) (h false)
  perform-FitAfter s o client conn tk b gs adm t _ r (holds_gauge h) = h
  perform-FitAfter s o client conn tk b gs adm t _ r (holds_prelogin h) = h
  perform-FitAfter s o client conn tk b gs adm t _ r (holds_active h) = h
  perform-FitAfter s o client conn tk b gs adm t _ r (holds_time h) = h _
  perform-FitAfter s o client conn tk b gs adm t _ r (releases {i = i} {k = k} h) =
      taken-FitAfter s (live_of client conn tk b gs adm t (give_back in_handle i k)) k
        (take_at i gs) h
  perform-FitAfter s o client conn tk b gs adm t _ r (releases_slot {i = i} {k = k} h) =
      slot-FitAfter s (live_of client conn tk b gs adm t (give_back in_admission i k)) k
        (take_at i adm) h
  perform-FitAfter s o client conn tk b gs adm t _ r (releases_socket {i = i} {k = k} h) =
      socket-FitAfter s (live_of client conn tk b gs adm t (give_back in_task i k)) k (take_at i tk)
        h
  perform-FitAfter s o client conn tk b gs adm t _ r (drops_admission {k = k} h) =
      fields-FitAfter s (live_of client conn tk b gs adm t (drop_admission k)) k adm h refl refl
  perform-FitAfter s o client conn tk b gs adm t _ r (reads_header w h) = h _
  perform-FitAfter s o client conn tk b gs adm t _ r (reads_frame w h) = h _
  perform-FitAfter s o client conn tk b gs adm t _ r (writes w h) = h _
  perform-FitAfter s o client conn tk b gs adm t _ r (replies h) = h _
  perform-FitAfter s o client conn tk b gs adm t _ r (tries {k = k} h n) =
      attempt-FitAfter fl nets parse s (live_of client conn tk b gs adm t (try_attempt k)) k
        (enter fl (protection_of fl s) conn.clock) h n
  perform-FitAfter s o client conn tk b gs adm t _ r
        (dials {bytes = bytes} {ms = ms} {k = k} slots dial_slot w h) =
      dial-FitAfter fl nets parse s (live_of client conn tk b gs adm t (dial bytes ms k)) k
        (dialed o.io bytes) h
  perform-FitAfter s o client conn tk b gs adm t _ r (finishes {x = x} {k = k} h) =
      finish-FitAfter fl nets parse s (live_of client conn tk b gs adm t (end_attempt x k)) x k
        (take_attempt gs) h
  perform-FitAfter s o client conn tk b gs _ _ _ r (relays slots admitted h) = h _

  pub act-FitAfter :
      (s : State F64 IpNet V) (c : Live) (o : Outside)
      → Rejecting s c.ticket
      → IsFit c.in_handle c.in_admission c.ticket c.rest
      → FitAfter (act fl nets parse s c o)
  unfolding act
  act-FitAfter s c o r h =
      perform-FitAfter s o c.client (at_time c o.now).conn c.in_task c.to_backend c.in_handle
        c.in_admission c.ticket c.rest r h
