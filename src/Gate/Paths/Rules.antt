-- ===== src/Gate/Paths/Rules.antt =====
-- gate/src/main.rs: the paths of what the phases of `handle` have in common.
use xddp.Prelude.{
  ℕ, ◌≤◌, ◌≡◌, refl, List, ◌∷◌, Option, none, some, Bool, true, false, if◌then◌else◌, arith,
}
use xddp.Net.{IpNets}
use xddp.Socket.{SocketAddr}
use xddp.Config.File.{Config}
use xddp.Config.Settings.{Timeouts}
use xddp.Config.Protocol.{Protocol}
use xddp.Protocol.Base.{Result, ok, err}
use xddp.Protocol.Reader.{Frame}
use xddp.Limiter.Bucket.{Policy}
use xddp.Limiter.State.{Ticket}
use xddp.Backend.{Attempt}
use xddp.Gate.{
  prelogin, admitted_slots, backend_slots, sockets, status_completed, Guard, permit, gauge, attempt,
  Task, stop, try,
}
use xddp.Gate.Resources.{permits_of, dial_slots, held_in}
use xddp.Gate.Handle.{reject, phase, local_identity, login_within, pay_status, identified}
use xddp.Gate.Guards.{apply_mark}
use xddp.Gate.Paths.{
  IsFit, returns, fails, counts, reads_clock, charges, marks, reads_frame, Slotted, excused,
}

module _ {gs adm : List Guard} where
  pub if-IsFit :
      {t : Option Ticket} {x y : Task} (b : Bool)
      → IsFit gs adm t x
      → IsFit gs adm t y
      → IsFit gs adm t (if b then x else y)
  if-IsFit true hx hy = hx
  if-IsFit false hx hy = hy

  pub stop-IsFit :
      {t : Option Ticket} (r : Result (Unit {0})) → excused t ≡ true → IsFit gs adm t (stop r)
  stop-IsFit (ok x) h = returns h
  stop-IsFit (err e) h = fails

  pub try-IsFit :
      {A : Type 0} {t : Option Ticket} (r : Result A) {k : A → Task}
      → ((a : A) → IsFit gs adm t (k a))
      → IsFit gs adm t (try r k)
  try-IsFit (ok a) h = h a
  try-IsFit (err e) h = fails

  pub reject-IsFit : {t : Ticket} → IsFit gs adm (some t) reject
  reject-IsFit = marks (returns refl)

  pub phase-IsFit :
      {t : Option Ticket} (p : Protocol) (timeouts : Timeouts) (ms max : ℕ) {k : Frame → Task}
      → 1 ≤ held_in (permits_of prelogin) adm
      → ((f : Frame) → IsFit gs adm t (k f))
      → IsFit gs adm t (phase p timeouts ms max k)
  unfolding phase
  phase-IsFit p timeouts ms max w h = reads_clock λ n. reads_frame w λ r. try-IsFit r h

  pub login_within-IsFit :
      (nets : IpNets) {F V : Type 0} (cfg : Config F nets.IpNet V) {t : Ticket} (r : Result ℕ)
      {k : ℕ → Task}
      → ((n : ℕ) → IsFit gs adm (some t) (k n))
      → IsFit gs adm (some t) (login_within nets cfg r k)
  login_within-IsFit nets cfg (ok n) h = h n
  login_within-IsFit nets cfg (err e) h = marks fails

  pub pay_status-IsFit :
      {t : Ticket} (blocked separate : Bool) (p : Policy) {k : Bool → Task}
      → ((b : Bool) → IsFit gs adm (some t) (k b))
      → IsFit gs adm (some t) (pay_status blocked separate p k)
  pay_status-IsFit true separate p h = h false
  pay_status-IsFit false true p h = h true
  pay_status-IsFit false false p h = charges h

  pub local_identity-IsFit :
      (peer : SocketAddr) (addr : Option SocketAddr) {k : SocketAddr × SocketAddr → Task}
      → ((i : SocketAddr × SocketAddr) → IsFit gs adm none (k i))
      → IsFit gs adm none (local_identity peer addr k)
  local_identity-IsFit peer none h = fails
  local_identity-IsFit peer (some addr) h = h (peer, addr)

  pub identified-IsFit :
      (r : Result (SocketAddr × SocketAddr)) {k : SocketAddr × SocketAddr → Task}
      → ((i : SocketAddr × SocketAddr) → IsFit gs adm none (k i))
      → IsFit gs adm none (identified r k)
  identified-IsFit (ok i) h = counts (h i)
  identified-IsFit (err e) h = counts fails

pub completed_excused : (t : Ticket) → excused (some (apply_mark status_completed t)) ≡ true
completed_excused t = ground arith

pub refused_excused : (t : Ticket) → t.server_rejected ≡ true → excused (some t) ≡ true
refused_excused t h = ground (arith, h)

pub admitted_excused : (t : Ticket) → t.admitted ≡ true → excused (some t) ≡ true
admitted_excused t h = ground (arith, h)

pub gauge-Slotted : (gs : List Guard) (n : ℕ) → Slotted gs → Slotted (gauge n ∷ gs)
unfolding held_in
gauge-Slotted gs n h = record {
  admitted = omega (arith, h.admitted);
  backend = omega (arith, h.backend);
  socket = omega (arith, h.socket);
}

pub attempt-Slotted : (gs : List Guard) (a : Attempt) → Slotted gs → Slotted (attempt a ∷ gs)
unfolding held_in
attempt-Slotted gs a h = record {
  admitted = omega (arith, h.admitted);
  backend = omega (arith, h.backend);
  socket = omega (arith, h.socket);
}

pub one_dial :
    (gs : List Guard) (a : Attempt) (n : ℕ) → 1 ≤ held_in dial_slots (gauge n ∷ attempt a ∷ gs)
unfolding held_in
one_dial gs a n = omega arith

pub three-Slotted :
    (gs : List Guard) → Slotted (permit sockets ∷ permit backend_slots ∷ permit admitted_slots ∷ gs)
unfolding held_in
three-Slotted gs = record { admitted = omega arith; backend = omega arith; socket = omega arith }
