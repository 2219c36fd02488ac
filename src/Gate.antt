-- ===== src/Gate.antt =====
-- gate/src/main.rs: the state that the connections share, what a connection holds, and its task.
-- A task is the calls that it makes, each with what follows for every answer; between two calls the
-- tasks of other connections may make theirs.
pub mod Handle
pub mod Guards
pub mod Perform
pub mod World
pub mod Resources
pub mod Tickets
pub mod Paths
mod Examples
use xddp.Prelude.{ℕ, ◌*◌, List, Option, Bool}
use xddp.Prelude.Int.{ℤ}
use xddp.Metrics.{Metrics}
use xddp.Socket.{SocketAddr}
use xddp.Config.File.{Config}
use xddp.Protocol.Base.{Result, ok, err}
use xddp.Protocol.Reader.{Conn, Frame}
use xddp.Protocol.Reader
use xddp.Limiter.Address.{IpAddr}
use xddp.Limiter.Bucket.{Event, Policy}
use xddp.Limiter.State.{Limiter, Ticket}
use xddp.Backend.{Protection, Attempt}
use xddp.Cache.Status.{StatusCache}
use xddp.Runtime.{Runtime}

-- The semaphores of `State`.
pub data Semaphore : Type 0 where
  sockets prelogin admitted_slots backend_slots status_slots : Semaphore

-- `State`, with the free permits of each semaphore.
pub record State (F N V : Type 0) : Type 0 where
  pub cfg : Config F N V
  pub metrics : Metrics
  pub limiter : Limiter F
  pub runtime : Runtime N
  pub cache : StatusCache
  pub permits : Semaphore → ℕ
  pub backend_protection : Protection F

-- What is given back when its owner is dropped: a permit, a gauge, the time before the login, and
-- an attempt to dial.
pub data Guard : Type 0 where
  permit : Semaphore → Guard
  gauge : ℕ → Guard
  prelogin_time : ℕ → Guard
  attempt : Attempt → Guard

-- The variables of `handle`, its `Admission`, and the variables of the task around it.
pub data Scope : Type 0 where
  in_handle in_admission in_task : Scope

pub data Mark : Type 0 where
  handshake_seen status_completed rejected_by_server : Mark

-- The calls of the task of a connection, and what it returns; a task that is aborted unwinds, and one
-- that panics ends the process, which is built with panic = "abort".
pub data Task : Type 0 where
  stop : Result (Unit {0}) → Task
  unwind : Task
  crash : Task
  count : ℕ → Task → Task
  now : (ℕ → Task) → Task
  ask_policy : IpAddr → (Policy × Bool → Task) → Task
  accept_ip : IpAddr → Policy → (Bool → Task) → Task
  charge : Event → Policy → (Bool → Task) → Task
  ask_status : (Bool → Task) → Task
  settle_ticket : Task → Task
  mark : Mark → Task → Task
  acquire : Scope → Semaphore → (Bool → Task) → Task
  hold_gauge : Scope → ℕ → Task → Task
  hold_time : (ℕ → Task) → Task
  give_back : Scope → ℕ → Task → Task
  drop_admission : Task → Task
  await_header : ℕ → (Result (SocketAddr × SocketAddr) → Task) → Task
  await_frame : Reader.Limits → (Result Frame → Task) → Task
  write : List ℕ → ℕ → (Result (Unit {0}) → Task) → Task
  status_reply : ℤ → (List ℕ → Task) → Task
  try_attempt : (Bool → Task) → Task
  dial : Option (List ℕ) → ℕ → (Bool → Task) → Task
  end_attempt : Bool → Task → Task
  relay : (Bool → Task) → Task

-- A call that waits for its answer, in do blocks.
abbrev pub Call : Type 0 → Type 0
Call A = (A → Task) → Task

infixl 5 ◌>>=◌ ◌>>◌
abbrev pub ◌>>=◌ : {A : Type 0} → Call A → (A → Task) → Task
m >>= f = m f

abbrev pub ◌>>◌ : (Task → Task) → Task → Task
m >> k = m k

-- `?`
abbrev pub try : {A : Type 0} → Result A → Call A
try (ok a) k = k a
try (err e) k = stop (err e)

-- `Duration::from_millis`
abbrev pub millis : ℕ → ℕ
millis ms = ms * 1000000

-- An accepted socket: the address that it comes from, whether `set_nodelay` succeeds, and its
-- local address.
pub record Client : Type 0 where
  pub peer : SocketAddr
  pub nodelay : Bool
  pub local_addr : Option SocketAddr

-- A connection: its socket, what it holds, what was sent to the backend, and the rest of its task.
pub record Live : Type 0 where
  pub client : Client
  pub conn : Conn
  pub in_handle : List Guard
  pub ticket : Option Ticket
  pub in_admission : List Guard
  pub in_task : List Guard
  pub to_backend : List ℕ
  pub rest : Task

-- How an operation of the network ends.
pub data Outcome : Type 0 where
  complete broken timed_out : Outcome

-- What a call is given from outside: the seconds of the system clock, the nanoseconds of the
-- monotonic one, and how the network answers.
pub record Outside : Type 0 where
  pub unix : ℕ
  pub now : ℕ
  pub io : Outcome
