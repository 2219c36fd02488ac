-- ===== src/Gate/World.antt =====
-- gate/src/main.rs: the gate with its live connections, and the steps of `run` and of the tasks that
-- it spawns, in any order. The round of `refresh` holds its permit from one step to another.
use xddp.Prelude.{
  ℕ, ◌+◌, ◌-◌, ◌^◌, ◌<◌, List, [], ◌∷◌, ◌++◌, Option, none, some, Bool, true, false, if◌then◌else◌,
  ◌==◌, length, ◌≡◌,
}
use xddp.Prelude.Float.{Float}
use xddp.Net.{IpNets}
use xddp.Metrics.{inc, dec, set}
use xddp.Config.File.{Config}
use xddp.Protocol.Reader.{Arrival}
use xddp.Protocol.Utf8.{is_empty}
use xddp.Limiter.Address.{IpAddr}
use xddp.Limiter.State.{new_limiter}
use xddp.Limiter.Tickets.{sweep}
use xddp.Backend.{new_protection}
use xddp.Cache.{Prepared}
use xddp.Cache.Status.{StatusCache, stored}
use xddp.Runtime.{Wire, Opened, new_runtime, policy, telemetry, watch_round}
use xddp.Gate.{
  Semaphore, sockets, prelogin, admitted_slots, backend_slots, status_slots, State, Task, unwind,
  crash, Client, Live, Outside,
}
use xddp.Gate.Handle.{accept_client}
use xddp.Gate.Guards.{taken, given, resume, After, limiter_of, with_limiter}
use xddp.Gate.Perform.{act}

-- The permits that a configuration gives. `validate` accepts no `backend` of 0, with which the source's
-- subtraction would wrap and its semaphore panic before any connection.
abbrev pub slots_of : {F N V : Type 0} → Config F N V → Semaphore → ℕ
slots_of cfg sockets = cfg.limits.total_sockets
slots_of cfg prelogin = cfg.limits.prelogin
slots_of cfg admitted_slots = cfg.limits.admitted
slots_of cfg backend_slots = cfg.limits.backend - 1
slots_of cfg status_slots =
    if cfg.limits.status_connections == 0
    then cfg.limits.prelogin
    else cfg.limits.status_connections

pub record World (F N V : Type 0) : Type 0 where
  pub state : State F N V
  pub live : List Live
  pub polling : Bool

-- A connection as `run` accepts it: `client` will send what arrives.
abbrev pub new_live : Client → List Arrival → ℕ → ℕ → Task → Live
new_live client arrivals t max_initial_bytes task = record {
  client = client;
  conn = record { clock = t; arrivals = arrivals; remaining = max_initial_bytes };
  in_handle = [];
  ticket = none;
  in_admission = [];
  in_task = [];
  to_backend = [];
  rest = task;
}

-- The process has aborted.
abbrev pub crashed : Option Live → Bool
crashed none = false
crashed (some c) = elim c.rest [ crash ↦ true | _ ↦ false ]

abbrev pub back : Option Live → List Live → List Live
back none after = after
back (some c) after = c ∷ after

module _ (fl : Float) (nets : IpNets) (parse : List ℕ → Option (Wire nets.IpNet)) {V : Type 0} where
  open fl use {F64}
  open nets use {IpNet}

  -- The state that `run` makes.
  unfoldable pub new_state :
      Config F64 IpNet V → (IpAddr → ℕ) → (IpAddr → ℕ) → StatusCache → ℕ → State F64 IpNet V
  new_state cfg hash_ip hash_prefix cache t = record {
    cfg = cfg;
    metrics = λ n. 0;
    limiter = new_limiter fl cfg.limits hash_ip hash_prefix (λ n. 0) t;
    runtime = new_runtime (if is_empty cfg.runtime_file then cfg.observe else true);
    cache = cache;
    permits = slots_of cfg;
    backend_protection =
        new_protection fl cfg.backend_protection (cfg.limits.backend - 1) (λ n. 0) t;
  }

  -- A round of the maintenance task, at a shard.
  unfoldable pub maintain : State F64 IpNet V → ℕ → ℕ → ℕ → State F64 IpNet V
  unfolding sweep
  maintain s shard unix t =
      let swept = with_limiter fl s (sweep fl (limiter_of fl s) shard t) in
      let p = (policy nets parse s.runtime s.cfg.listen.ip unix t).0 in
      let (generation, rejected, missing) = telemetry s.runtime unix t in
      let m = set (set swept.metrics 34 p.mode) 35 (if p.observe then 1 else 0) in
      record swept { metrics = set (set (set m 42 generation) 43 rejected) 51 missing }

  -- The beginning and the end of a round of `refresh` that has its permit.
  unfoldable pub start_poll : State F64 IpNet V → State F64 IpNet V
  start_poll s = record s { permits = taken s.permits sockets; metrics = inc (inc s.metrics 3) 31 }

  unfoldable pub end_poll : State F64 IpNet V → Option Prepared → ℕ → State F64 IpNet V
  end_poll s answer t =
      let (cache, m) = stored s.cache s.metrics answer t in
      record s { cache = cache; metrics = dec m 3; permits = given s.permits sockets }

  -- `refresh.abort()` during a round: the permit and the gauge are dropped, and no answer is kept.
  -- The source then starts no other round and accepts no client; the steps here still may.
  unfoldable pub abort_poll : State F64 IpNet V → State F64 IpNet V
  abort_poll s = record s { metrics = dec s.metrics 3; permits = given s.permits sockets }

  abbrev pub after_step : After F64 IpNet V → List Live → List Live → Bool → World F64 IpNet V
  after_step (s, c) before after polling = record {
    state = s;
    live = before ++ back c after;
    polling = polling;
  }

  -- No step follows one that aborts the process.
  pub data Step : World F64 IpNet V → World F64 IpNet V → Type 0 where
    accepts :
        (s : State F64 IpNet V) (live : List Live) (polling : Bool) (client : Client)
        (arrivals : List Arrival) (t : ℕ)
        → length live + 1 < 2 ^ 64
        → Step
            (record { state = s; live = live; polling = polling })
            (record {
              state = s;
              live =
                  new_live client arrivals t s.cfg.protocol.max_initial_bytes
                    (accept_client nets s.cfg client)
                  ∷ live;
              polling = polling;
            })
    fails_to_accept :
        (s : State F64 IpNet V) (live : List Live) (polling : Bool)
        → Step
            (record { state = s; live = live; polling = polling })
            (record {
              state = record s { metrics = inc s.metrics 26 };
              live = live;
              polling = polling;
            })
    acts :
        (s : State F64 IpNet V) (before : List Live) (c : Live) (after : List Live) (polling : Bool)
        (o : Outside)
        → crashed (act fl nets parse s c o).1 ≡ false
        → Step
            (record { state = s; live = before ++ c ∷ after; polling = polling })
            (after_step (act fl nets parse s c o) before after polling)
    aborts :
        (s : State F64 IpNet V) (before : List Live) (c : Live) (after : List Live) (polling : Bool)
        → Step
            (record { state = s; live = before ++ c ∷ after; polling = polling })
            (record { state = s; live = before ++ resume c unwind ∷ after; polling = polling })
    maintains :
        (s : State F64 IpNet V) (live : List Live) (polling : Bool) (shard unix t : ℕ)
        → Step
            (record { state = s; live = live; polling = polling })
            (record { state = maintain s shard unix t; live = live; polling = polling })
    watches :
        (s : State F64 IpNet V) (live : List Live) (polling : Bool) (file : Opened) (unix t : ℕ)
        → Step
            (record { state = s; live = live; polling = polling })
            (record {
              state = record s { runtime = watch_round nets parse s.runtime file unix t };
              live = live;
              polling = polling;
            })
    starts_poll :
        (s : State F64 IpNet V) (live : List Live)
        → (s.permits sockets == 0) ≡ false
        → Step
            (record { state = s; live = live; polling = false })
            (record { state = start_poll s; live = live; polling = true })
    skips_poll :
        (s : State F64 IpNet V) (live : List Live)
        → (s.permits sockets == 0) ≡ true
        → Step
            (record { state = s; live = live; polling = false })
            (record {
              state = record s { metrics = inc s.metrics 23 };
              live = live;
              polling = false;
            })
    ends_poll :
        (s : State F64 IpNet V) (live : List Live) (answer : Option Prepared) (t : ℕ)
        → Step
            (record { state = s; live = live; polling = true })
            (record { state = end_poll s answer t; live = live; polling = false })
    aborts_poll :
        (s : State F64 IpNet V) (live : List Live)
        → Step
            (record { state = s; live = live; polling = true })
            (record { state = abort_poll s; live = live; polling = false })

  -- What `run` comes to.
  pub data Reach (cfg : Config F64 IpNet V) (hash_ip hash_prefix : IpAddr → ℕ) (cache : StatusCache)
      (t : ℕ) : World F64 IpNet V → Type 0 where
    starts :
        Reach cfg hash_ip hash_prefix cache t
          (record { state = new_state cfg hash_ip hash_prefix cache t; live = []; polling = false })
    steps :
        (w w' : World F64 IpNet V)
        → Reach cfg hash_ip hash_prefix cache t w
        → Step w w'
        → Reach cfg hash_ip hash_prefix cache t w'
