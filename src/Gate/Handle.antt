-- ===== src/Gate/Handle.antt =====
-- gate/src/main.rs: the accept branch of `run`, `phase` and `handle`, as the task of a connection.
use xddp.Prelude.{
  ℕ, ◌+◌, min, List, ◌++◌, Option, none, some, Bool, true, false, not, ◌&&◌, ◌||◌, ◌==◌,
  if◌then◌else◌,
}
use xddp.Prelude.Int.{pos, eqb_ℤ}
use xddp.Net.{IpNets}
use xddp.Socket.{SocketAddr}
use xddp.Config.File.{Config}
use xddp.Config.Settings.{Timeouts}
use xddp.Config.Protocol.{Protocol}
use xddp.Protocol.Base.{Error, io, deadline, slow, Result, ok, err}
use xddp.Protocol.Messages.{
  Handshake, handshake_max, handshake, login_max, login, status_request, ping,
}
use xddp.Protocol.Reader.{Frame, body}
use xddp.Limiter.Bucket.{Event, Policy}
use xddp.Limiter.Bucket
use xddp.Cache.Header.{proxy_header}
use xddp.IncomingProxy.{is_trusted}
use xddp.Gate.{
  Scope, sockets, prelogin, admitted_slots, backend_slots, status_slots, in_handle, in_admission,
  in_task, handshake_seen, status_completed, rejected_by_server, Task, stop, count, now, ask_policy,
  accept_ip, charge, ask_status, settle_ticket, mark, acquire, hold_gauge, hold_time, give_back,
  drop_admission, await_header, await_frame, write, status_reply, try_attempt, dial, end_attempt,
  relay, Call, ◌>>=◌, ◌>>◌, try, millis, Client,
}

-- `ticket.server_rejected = true; return Ok(());`
abbrev pub reject : Task
reject = mark rejected_by_server (stop (ok tt))

abbrev pub is_timeout : Error → Bool
is_timeout deadline = true
is_timeout slow = true
is_timeout _ = false

-- The permits of a tuple are given back in its order, where one of its parts is an error: the permit
-- stands behind the newer ones, of which there is one for each part that is not an error.
abbrev pub one : Bool → ℕ
one b = if b then 1 else 0

abbrev pub give_back_if : Bool → Scope → ℕ → Task → Task
give_back_if b scope i k = if b then give_back scope i k else k

-- `phase`
unfoldable pub phase : Protocol → Timeouts → ℕ → ℕ → Call Frame
phase protocol timeouts ms max k = do
  t ← now
  frame ← await_frame (record {
    max_len = min protocol.max_frame max;
    absolute = t + millis ms;
    progress = millis timeouts.progress_ms;
    first_progress = millis timeouts.progress_ms;
  })
  try frame k

abbrev pub identified : Result (SocketAddr × SocketAddr) → Call (SocketAddr × SocketAddr)
identified (ok identity) k = count 52 (k identity)
identified (err e) k = count (if is_timeout e then 55 else 54) (stop (err e))

abbrev pub local_identity : SocketAddr → Option SocketAddr → Call (SocketAddr × SocketAddr)
local_identity peer none k = stop (err io)
local_identity peer (some addr) k = k (peer, addr)

-- `!(blocked || (!separate_status && !event(..)))`
abbrev pub pay_status : Bool → Bool → Policy → Call Bool
pay_status blocked separate_status p k =
    if blocked then k false else if separate_status then k true else charge Bucket.status p k

-- What the backend is sent first; a header that cannot be made is an error.
abbrev pub first_bytes : Bool → SocketAddr × SocketAddr → Frame → Frame → Option (List ℕ)
first_bytes with_header (peer, dst) handshake login =
    if with_header
    then elim (proxy_header peer dst) [
      | none ↦ none
      | some header ↦ some (header ++ handshake.wire ++ login.wire)
    ]
    else some (handshake.wire ++ login.wire)

module _ (nets : IpNets) {F V : Type 0} (cfg : Config F nets.IpNet V) where
  abbrev pub identify : Client → ℕ → Call (SocketAddr × SocketAddr)
  identify client start k =
      if cfg.incoming_proxy_v2.enabled
      then (do
        identity ← await_header (
            min (start + millis cfg.timeouts.handshake_ms)
              (start + millis cfg.timeouts.first_progress_ms))
        identified identity k)
      else local_identity client.peer client.local_addr k

  -- The phases of a status request, after its handshake.
  unfoldable pub serve_status : SocketAddr → Handshake → Bool → Task
  serve_status peer h separate_status = do
    request ← phase cfg.protocol cfg.timeouts cfg.timeouts.status_ms 5
    valid ← try (status_request (body request))
    count 6
    p ← ask_policy peer.ip
    paid ← pay_status p.1 separate_status p.0
    if not paid then reject else do
      response ← status_reply h.version
      written ← write response (millis cfg.timeouts.status_ms)
      sent ← try written
      mark status_completed
      ping' ← phase cfg.protocol cfg.timeouts cfg.timeouts.status_ms 13
      valid ← try (ping (body ping'))
      echoed ← write ping'.wire (millis cfg.timeouts.status_ms)
      stop echoed

  unfoldable pub enter_status_phase : SocketAddr → Handshake → Bool → Policy → Task
  enter_status_phase peer h separate_status p = do
    entered ← ask_status
    if not entered then stop (ok tt) else do
      slot ← acquire in_handle status_slots
      if not slot then (do count 20; count 37; reject) else do
        paid ← charge (if separate_status then Bucket.status else Bucket.handshake) p
        if not paid then reject else do hold_gauge in_handle 36; serve_status peer h separate_status

  -- The relay, once the backend is connected.
  unfoldable pub relay_phase : Task
  relay_phase = do
    hold_gauge in_handle 30
    settle_ticket
    drop_admission
    copied ← relay
    if copied then stop (ok tt) else count 25 (stop (ok tt))

  unfoldable pub dial_phase : SocketAddr × SocketAddr → Frame → Frame → Task
  dial_phase identity first second = do
    let_in ← try_attempt
    if not let_in then (do count 47; reject) else do
      hold_gauge in_handle 3
      count 31
      connected ←
          dial (first_bytes cfg.proxy_v2 identity first second) (millis cfg.timeouts.backend_ms)
      end_attempt connected
      if not connected then (do count 17; reject) else relay_phase

  -- The three permits of a relay. When one is missing the others are given back.
  unfoldable pub backend_phase : SocketAddr × SocketAddr → Frame → Frame → Task
  backend_phase identity first second = do
    a ← acquire in_handle admitted_slots
    b ← acquire in_handle backend_slots
    c ← acquire in_handle sockets
    if a && b && c then dial_phase identity first second else do
      give_back_if a in_handle (one b + one c)
      give_back_if b in_handle (one c)
      give_back_if c in_handle 0
      count 20
      reject

  abbrev pub login_within : Result ℕ → Call ℕ
  login_within (ok max) k = k max
  login_within (err e) k = mark rejected_by_server (stop (err e))

  unfoldable pub login_phase : SocketAddr × SocketAddr → Frame → Handshake → Policy → Task
  login_phase identity first h p = do
    paid ← charge Bucket.handshake p
    if not paid then reject else do
      max ← login_within (login_max h.version cfg.protocol)
      second ← phase cfg.protocol cfg.timeouts cfg.timeouts.login_ms max
      valid ← try (login (body second) h.version cfg.protocol)
      count 7
      q ← ask_policy identity.0.ip
      if q.1 || (not q.0.observe && q.0.mode == 3) then reject else do
        charged ← charge Bucket.login q.0
        if not charged then reject else backend_phase identity first second

  unfoldable pub handshake_phase : SocketAddr × SocketAddr → Frame → Handshake → Task
  handshake_phase identity first h = do
    mark handshake_seen
    count 4
    p ← ask_policy identity.0.ip
    if p.1
        then reject
        else if eqb_ℤ h.state (pos 1)
        then enter_status_phase identity.0 h cfg.limits.separate_status_budget p.0
        else login_phase identity first h p.0

  unfoldable pub handle : Client → ℕ → Task
  handle client start = if not client.nodelay then stop (err io) else do
    identity ← identify client start
    p ← ask_policy identity.0.ip
    if p.1 || (not p.0.observe && p.0.mode == 3) then stop (ok tt) else do
      accepted ← accept_ip identity.0.ip p.0
      if not accepted then stop (ok tt) else do
        first ← await_frame (record {
          max_len = handshake_max cfg.protocol;
          absolute = start + millis cfg.timeouts.handshake_ms;
          progress = millis cfg.timeouts.progress_ms;
          first_progress = millis cfg.timeouts.first_progress_ms;
        })
        frame ← try first
        h ← try (handshake (body frame) cfg.protocol)
        handshake_phase identity frame h

  -- What the accept branch of `run` does with its two permits.
  unfoldable pub start_task : Client → Bool → Bool → Task
  start_task client socket pre =
      if socket && pre
      then (do
        hold_gauge in_task 1
        hold_gauge in_admission 2
        start ← hold_time
        handle client start)
      else (do
        give_back_if socket in_task 0
        give_back_if pre in_admission 0
        count 20
        stop (ok tt))

  -- The accept branch of `run`, and the task that it spawns.
  unfoldable pub accept_client : Client → Task
  accept_client client = do
    count 0
    if cfg.incoming_proxy_v2.enabled && not (is_trusted nets client.peer.ip cfg.incoming_proxy_v2)
        then (do count 53; stop (ok tt))
        else do
          socket ← acquire in_task sockets
          pre ← acquire in_admission prelogin
          start_task client socket pre
