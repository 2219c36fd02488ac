-- ===== src/Gate/Paths/Handled.antt =====
-- gate/src/main.rs: the paths of the accept branch of `run`, and of `handle`.
use xddp.Prelude.{
  ◌≤◌, arith, ℕ, refl, List, [], ◌∷◌, none, some, Bool, true, false, not, ◌||◌, ◌&&◌, ◌==◌,
}
use xddp.Prelude.Int.{pos, eqb_ℤ}
use xddp.Net.{IpNets}
use xddp.Socket.{SocketAddr}
use xddp.Config.File.{Config}
use xddp.Protocol.Messages.{Handshake, login_max, login, handshake, status_request, ping}
use xddp.Protocol.Reader.{Frame, body}
use xddp.Limiter.Bucket.{Policy}
use xddp.Limiter.State.{Ticket}
use xddp.IncomingProxy.{is_trusted}
use xddp.Gate.{
  prelogin, millis, status_completed, Guard, permit, gauge, prelogin_time, Task, Client,
}
use xddp.Gate.Resources.{permits_of, held_in}
use xddp.Gate.Handle.{
  serve_status, enter_status_phase, relay_phase, dial_phase, backend_phase, login_phase,
  handshake_phase, identify, handle, accept_client, start_task,
}
use xddp.Gate.Paths.{
  IsFit, returns, fails, counts, asks_policy, asks_ticket, charges, enters, is_let_in, marks,
  acquires, acquires_slot, acquires_socket, holds_gauge, holds_prelogin, holds_active, holds_time,
  releases, releases_slot, releases_socket, drops_admission, reads_header, reads_frame, writes,
  replies, tries, dials, finishes, relays, Slotted,
}
use xddp.Gate.Paths.Rules.{
  if-IsFit, stop-IsFit, try-IsFit, reject-IsFit, phase-IsFit, login_within-IsFit, pay_status-IsFit,
  local_identity-IsFit, identified-IsFit, completed_excused, refused_excused, admitted_excused,
  gauge-Slotted, attempt-Slotted, one_dial, three-Slotted,
}

module _ (nets : IpNets) {F V : Type 0} (cfg : Config F nets.IpNet V) where
  serve_status-IsFit :
      {gs adm : List Guard} {t : Ticket} (peer : SocketAddr) (h : Handshake) (separate : Bool)
      → 1 ≤ held_in (permits_of prelogin) adm
      → IsFit gs adm (some t) (serve_status nets cfg peer h separate)
  unfolding serve_status
  serve_status-IsFit {gs} {adm} {t} peer h separate w =
      phase-IsFit cfg.protocol cfg.timeouts cfg.timeouts.status_ms 5 w λ request.
        try-IsFit (status_request (body request)) λ valid. counts (
          asks_policy λ p. pay_status-IsFit p.1 separate p.0 λ paid.
            if-IsFit (not paid) reject-IsFit (
              replies {version = h.version} λ response.
                writes {bytes = response} {ms = millis cfg.timeouts.status_ms} w λ written.
                  try-IsFit written λ sent. marks {m = status_completed} (
                    phase-IsFit cfg.protocol cfg.timeouts cfg.timeouts.status_ms 13 w λ ping'.
                      try-IsFit (ping (body ping')) λ ok_ping.
                        writes {bytes = ping'.wire} {ms = millis cfg.timeouts.status_ms} w
                          λ echoed. stop-IsFit echoed (completed_excused t))))

  enter_status_phase-IsFit :
      {gs adm : List Guard} {t : Ticket} (peer : SocketAddr) (h : Handshake) (separate : Bool)
      (p : Policy)
      → 1 ≤ held_in (permits_of prelogin) adm
      → IsFit gs adm (some t) (enter_status_phase nets cfg peer h separate p)
  unfolding enter_status_phase
  enter_status_phase-IsFit peer h separate p w =
      enters
        (λ t'.
          acquires
            (charges λ paid.
              if-IsFit (not paid) reject-IsFit (holds_gauge (serve_status-IsFit peer h separate w)))
            (counts (counts reject-IsFit)))
        (λ t' rejected. returns (refused_excused t' rejected))

  relay_phase-IsFit :
      {gs adm : List Guard} {t : Ticket} → Slotted gs → IsFit gs adm (some t) (relay_phase nets cfg)
  unfolding relay_phase
  relay_phase-IsFit {gs} h = holds_gauge (
      is_let_in λ t' admitted. drops_admission (
        relays (gauge-Slotted _ 30 h) admitted λ copied.
          if-IsFit copied (returns (admitted_excused t' admitted))
            (counts (returns (admitted_excused t' admitted)))))

  dial_phase-IsFit :
      {gs adm : List Guard} {t : Ticket} (identity : SocketAddr × SocketAddr) (first second : Frame)
      → Slotted gs
      → 1 ≤ held_in (permits_of prelogin) adm
      → IsFit gs adm (some t) (dial_phase nets cfg identity first second)
  unfolding dial_phase
  dial_phase-IsFit {gs} identity first second h w =
      tries
        (λ a. holds_gauge (
          counts (
            dials (gauge-Slotted _ 3 (attempt-Slotted gs a h)) (one_dial gs a 3) w λ connected.
              finishes (
                if-IsFit (not connected) (counts reject-IsFit)
                  (relay_phase-IsFit (gauge-Slotted gs 3 h))))))
        (counts reject-IsFit)

  -- The permits that were taken are given back, the newest first.
  backend_phase-IsFit :
      {gs adm : List Guard} {t : Ticket} (identity : SocketAddr × SocketAddr) (first second : Frame)
      → 1 ≤ held_in (permits_of prelogin) adm
      → IsFit gs adm (some t) (backend_phase nets cfg identity first second)
  unfolding backend_phase
  backend_phase-IsFit {gs} identity first second w =
      acquires
        (acquires
          (acquires (dial_phase-IsFit identity first second (three-Slotted gs) w)
            ((releases (releases (counts reject-IsFit)))))
          (acquires (releases ((releases (counts reject-IsFit))))
            (((releases (counts reject-IsFit))))))
        (acquires
          (acquires (releases (releases ((counts reject-IsFit))))
            ((releases ((counts reject-IsFit)))))
          (acquires (releases (((counts reject-IsFit)))) ((((counts reject-IsFit))))))

  login_phase-IsFit :
      {gs adm : List Guard} {t : Ticket} (identity : SocketAddr × SocketAddr) (first : Frame)
      (h : Handshake) (p : Policy)
      → 1 ≤ held_in (permits_of prelogin) adm
      → IsFit gs adm (some t) (login_phase nets cfg identity first h p)
  unfolding login_phase
  login_phase-IsFit identity first h p w = charges λ paid. if-IsFit (not paid) reject-IsFit (
      login_within-IsFit nets cfg (login_max h.version cfg.protocol) λ max.
        phase-IsFit cfg.protocol cfg.timeouts cfg.timeouts.login_ms max w λ second.
          try-IsFit (login (body second) h.version cfg.protocol) λ valid. counts (
            asks_policy λ q. if-IsFit (q.1 || (not q.0.observe && q.0.mode == 3)) reject-IsFit (
              charges λ charged.
                if-IsFit (not charged) reject-IsFit (backend_phase-IsFit identity first second w))))

  handshake_phase-IsFit :
      {gs adm : List Guard} {t : Ticket} (identity : SocketAddr × SocketAddr) (first : Frame)
      (h : Handshake)
      → 1 ≤ held_in (permits_of prelogin) adm
      → IsFit gs adm (some t) (handshake_phase nets cfg identity first h)
  unfolding handshake_phase
  handshake_phase-IsFit identity first h w = marks (
      counts (
        asks_policy λ p. if-IsFit p.1 reject-IsFit (
          if-IsFit (eqb_ℤ h.state (pos 1))
            (enter_status_phase-IsFit identity.0 h cfg.limits.separate_status_budget p.0 w)
            (login_phase-IsFit identity first h p.0 w))))

  handle-IsFit :
      {gs adm : List Guard} (client : Client) (start : ℕ)
      → 1 ≤ held_in (permits_of prelogin) adm
      → IsFit gs adm none (handle nets cfg client start)
  unfolding handle
  handle-IsFit {gs} {adm} client start w = if-IsFit (not client.nodelay) fails (
      identity-IsFit λ identity. asks_policy λ p.
        if-IsFit (p.1 || (not p.0.observe && p.0.mode == 3)) (returns refl) (
          asks_ticket
            (λ t. reads_frame w λ first. try-IsFit first λ frame.
              try-IsFit (handshake (body frame) cfg.protocol)
                λ h. handshake_phase-IsFit identity frame h w)
            (returns refl)))
    where
      identity-IsFit :
          {k : SocketAddr × SocketAddr → Task}
          → ((i : SocketAddr × SocketAddr) → IsFit gs adm none (k i))
          → IsFit gs adm none (identify nets cfg client start k)
      identity-IsFit h =
          if-IsFit cfg.incoming_proxy_v2.enabled (reads_header w λ r. identified-IsFit r h)
            (local_identity-IsFit client.peer client.local_addr h)

  one_slot :
      (n : ℕ) → 1 ≤ held_in (permits_of prelogin) (permit prelogin ∷ gauge 2 ∷ prelogin_time n ∷ [])
  unfolding held_in
  one_slot n = omega arith

  -- With the permit of the prelogin slot, and without it.
  slot-IsFit :
      (client : Client) (socket : Bool)
      → IsFit [] (permit prelogin ∷ []) none (start_task nets cfg client socket true)
  unfolding start_task
  slot-IsFit client true =
      holds_active (holds_prelogin (holds_time λ n. handle-IsFit client n (one_slot n)))
  slot-IsFit client false = (releases_slot (counts (returns refl)))

  no_slot-IsFit :
      (client : Client) (socket : Bool) → IsFit [] [] none (start_task nets cfg client socket false)
  unfolding start_task
  no_slot-IsFit client true = releases_socket ((counts (returns refl)))
  no_slot-IsFit client false = ((counts (returns refl)))

  pub accept_client-IsFit : (client : Client) → IsFit [] [] none (accept_client nets cfg client)
  unfolding accept_client
  accept_client-IsFit client = counts (
      if-IsFit
        (cfg.incoming_proxy_v2.enabled
          && not (is_trusted nets client.peer.ip cfg.incoming_proxy_v2))
        (counts (returns refl))
        (acquires_socket
          λ socket. acquires_slot (slot-IsFit client socket) (no_slot-IsFit client socket)))
