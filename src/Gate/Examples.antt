-- ===== src/Gate/Examples.antt =====
-- gate/src/main.rs on concrete data: a connection from its accept to its relay, and instances of the
-- theorems.
use xddp.Prelude.{
  ℕ, zero, suc, ◌-◌, ◌≤◌, ◌≡◌, refl, subst, List, [], ◌∷◌, ◌++◌, some, Bool, true, false, inl, inr,
  Bool-cases, if◌then◌else◌, arith,
}
use xddp.Prelude.Whole.{whole}
use xddp.Config.File.{Config}
use xddp.Config.Examples.{config}
use xddp.Cache.Examples.{Doc, cache}
use xddp.Limiter.Address.{v4, ip_eq, normalize, subnet}
use xddp.Limiter.Examples.{hash}
use xddp.Runtime.Examples.{Place, places, parse}
use xddp.Protocol.Reader.{Arrival, got}
use xddp.Gate
use xddp.Gate.{sockets, State, Task, Client, Live, Outside, complete}
use xddp.Gate.Handle.{
  accept_client, start_task, handle, handshake_phase, login_phase, backend_phase, dial_phase,
  relay_phase, phase,
}
use xddp.Gate.Guards.{drop_guard}
use xddp.Limiter.Table.{lookup, insert, write}
use xddp.Limiter.Table
use xddp.Limiter.Bucket.{available, consume}
use xddp.Limiter.State.{Entry, Limiter, Ticket, new_limiter, new_entry, judged, first_failing}
use xddp.Limiter.Accept.{admit, accept_rates, accept_caps, accept}
use xddp.Limiter.Tickets.{event_rates, event, mark_admitted, drop_ticket, release_entry}
use xddp.Backend.{new_protection, enter, finish_attempt, drop_attempt, finish_at}
use xddp.Runtime.{policy, new_runtime}
use xddp.Protocol.Reader.{read_frame, body}
use xddp.Protocol.Messages.{
  handshake_max, handshake, handshake_body, login_max, login_schema, login, login_body,
}
use xddp.Gate.Perform.{act, perform}
use xddp.Gate.World.{
  World, new_live, new_state, crashed, after_step, accepts, acts, Reach, starts, steps,
}
use xddp.Gate.Paths.Holding.{waiting, dialing, connected, count_of}
use xddp.Gate.Paths.Reached.{
  relaying, returned, Relayed, Reach-waiting, Reach-connected, Reach-Relayed, Reach-unpunished,
}
use xddp.Gate.Resources.{dial_slots}
use xddp.Gate.Resources.Reached.{configured}
use xddp.Gate.Tickets.{tickets}
use xddp.Gate.Tickets.Reached.{Reach-tickets}
use xddp.Limiter.Counts.{view}
use xddp.Limiter.System.Held.{held}
use xddp.Limiter.System.Caps.{Bounded}
use xddp.Limiter.Bucket
use xddp.Config.Limits.{Limits}
use xddp.Metrics.{get}
use xddp.Protocol.Varint.{varint}
use xddp.Protocol.Cursor.{int, string, blob, bytes, finish}
use xddp.Protocol.Cursor
use xddp.Protocol.Utf8.{from_utf8}

-- Without the PROXY protocol.
abbrev plain : Config ℕ Place Doc
plain = record config {
  incoming_proxy_v2 = record { enabled = false; trusted_proxies = [] };
  proxy_v2 = false;
}

abbrev player : Client
player = record {
  peer = record { ip = v4 0x0a000001; port = 4000 };
  nodelay = true;
  local_addr = some (record { ip = v4 0x0a000002; port = 25565 });
}

-- A handshake of version 765 for a login, to the host `a`, and the login of `b`.
abbrev handshake_wire : List ℕ
handshake_wire = 8 ∷ 0 ∷ 253 ∷ 5 ∷ 1 ∷ 97 ∷ 99 ∷ 221 ∷ 2 ∷ []

abbrev login_wire : List ℕ
login_wire = 19 ∷ 0 ∷ 1 ∷ 98 ∷ 0 ∷ 0 ∷ 0 ∷ 0 ∷ 0 ∷ 0 ∷ 0 ∷ 0 ∷ 0 ∷ 0 ∷ 0 ∷ 0 ∷ 0 ∷ 0 ∷ 0 ∷ 0 ∷ []

abbrev sent : List Arrival
sent = got 5 handshake_wire ∷ got 9 login_wire ∷ []

abbrev outside : Outside
outside = record { unix = 0; now = 10; io = complete }

abbrev Gates : Type 0
Gates = World ℕ Place Doc

abbrev at_first : Gates
at_first = record {
  state = new_state whole places parse plain hash hash cache 0;
  live = [];
  polling = false;
}

abbrev one_accepted : Gates
one_accepted = record at_first {
  live = new_live player sent 1 4096 (accept_client places plain player) ∷ [];
}

-- The newest connection takes a step.
abbrev advanced : State ℕ Place Doc → List Live → Bool → Gates
advanced s [] polling = record { state = s; live = []; polling = polling }
advanced s (c ∷ cs) polling =
    let v = act whole places parse s c outside in
    if crashed v.1
    then record { state = s; live = c ∷ cs; polling = polling }
    else after_step whole places parse v [] cs polling

abbrev ran : ℕ → Gates → Gates
ran zero w = w
ran (suc n) w = ran n (advanced w.state w.live w.polling)

abbrev Reached : Gates → Type 0
Reached w = Reach whole places parse plain hash hash cache 0 w

advanced-Reached :
    (s : State ℕ Place Doc) (live : List Live) (polling : Bool)
    → Reached (record { state = s; live = live; polling = polling })
    → Reached (advanced s live polling)
advanced-Reached s [] polling r = r
advanced-Reached s (c ∷ cs) polling r =
    elim (Bool-cases (crashed (act whole places parse s c outside).1))
      as (λ _. Reached (advanced s (c ∷ cs) polling)) [
        | inl aborted ↦ rw aborted r
        | inr running ↦ rw running (steps _ _ r (acts s [] c cs polling outside running))
      ]

ran-Reached : (n : ℕ) (w : Gates) → Reached w → Reached (ran n w)
ran-Reached zero w r = r
ran-Reached (suc n) w r = ran-Reached n _ (advanced-Reached w.state w.live w.polling r)

one_accepted-Reached : Reached one_accepted
unfolding new_state
one_accepted-Reached =
    steps at_first one_accepted starts (accepts at_first.state [] false player sent 1 (omega arith))

abbrev newest : List Live → Live
newest [] = new_live player [] 0 0 (Gate.unwind)
newest (c ∷ cs) = c

-- The player relays, after 32 steps, and then its relay has ended.
abbrev relays_now : Gates
relays_now = ran 32 one_accepted

abbrev relayed_now : Gates
relayed_now = ran 33 one_accepted

relays_now-Reached : Reached relays_now
relays_now-Reached = ran-Reached 32 one_accepted one_accepted-Reached

relayed_now-Reached : Reached relayed_now
relayed_now-Reached = ran-Reached 33 one_accepted one_accepted-Reached

abbrev relayed_ticket : Ticket
relayed_ticket = record {
  ip = v4 0x0a000001;
  prefix = v4 0x0a000000;
  handshake = true;
  admitted = true;
  status_complete = false;
  server_rejected = false;
  status = false;
}

-- What the two worlds hold, computed.
relays_now-live :
    (relays_now.live ≡ newest relays_now.live ∷ [])
    × (relaying (newest relays_now.live).rest ≡ true)
    × ((newest relays_now.live).to_backend ≡ handshake_wire ++ login_wire)
unfolding new_state new_limiter Table.new new_entry judged first_failing available consume lookup
    insert write admit accept_rates accept_caps accept event event_rates mark_admitted
    new_protection enter finish_attempt drop_attempt finish_at policy new_runtime read_frame
    handshake handshake_body login_max login_schema login login_body act perform drop_guard
    accept_client start_task handle handshake_phase login_phase backend_phase dial_phase relay_phase
    phase Bucket.new varint handshake_max int Cursor.new body string blob bytes from_utf8 finish
    ip_eq normalize subnet
relays_now-live = (refl, refl, refl)

relayed_now-live :
    (relayed_now.live ≡ newest relayed_now.live ∷ [])
    × (returned (newest relayed_now.live).rest ≡ true)
    × ((newest relayed_now.live).ticket ≡ some relayed_ticket)
unfolding new_state new_limiter Table.new new_entry judged first_failing available consume lookup
    insert write admit accept_rates accept_caps accept event event_rates mark_admitted
    new_protection enter finish_attempt drop_attempt finish_at policy new_runtime read_frame
    handshake handshake_body login_max login_schema login login_body act perform drop_guard
    accept_client start_task handle handshake_phase login_phase backend_phase dial_phase relay_phase
    phase Bucket.new varint handshake_max int Cursor.new body string blob bytes from_utf8 finish
    ip_eq normalize subnet
relayed_now-live = (refl, refl, refl)

Reach-tickets_example :
    (view relays_now.state.limiter.ip (v4 0x0a000001)
      ≡ held true (tickets relays_now.live) (v4 0x0a000001))
    × (view relays_now.state.limiter.prefix (v4 0x0a000001)
        ≡ held false (tickets relays_now.live) (v4 0x0a000001))
    × Bounded plain.limits
        (held true (tickets relays_now.live) (v4 0x0a000001))
        (held false (tickets relays_now.live) (v4 0x0a000001))
Reach-tickets_example =
    Reach-tickets whole places parse plain hash hash cache 0 relays_now relays_now-Reached
      (v4 0x0a000001)

-- The player has sent its first bytes, and its handshake is awaited.
abbrev waits_now : Gates
waits_now = ran 8 one_accepted

waits_now-waiting : count_of waiting waits_now.live ≡ 1
unfolding new_state new_limiter Table.new new_entry judged first_failing available consume lookup
    insert write admit accept_rates accept_caps accept event event_rates mark_admitted
    new_protection enter finish_attempt drop_attempt finish_at policy new_runtime read_frame
    handshake handshake_body login_max login_schema login login_body act perform drop_guard
    accept_client start_task handle handshake_phase login_phase backend_phase dial_phase relay_phase
    phase Bucket.new varint handshake_max int Cursor.new body string blob bytes from_utf8 finish
    ip_eq normalize subnet count_of
waits_now-waiting = refl

Reach-waiting_example : count_of waiting waits_now.live ≤ plain.limits.prelogin
Reach-waiting_example =
    Reach-waiting whole places parse plain hash hash cache 0 waits_now
      (ran-Reached 8 one_accepted one_accepted-Reached)

Reach-connected_example :
    (count_of connected relays_now.live ≤ plain.limits.admitted)
    × (count_of connected relays_now.live ≤ plain.limits.backend - 1)
    × (count_of dialing relays_now.live ≤ configured plain dial_slots)
Reach-connected_example =
    Reach-connected whole places parse plain hash hash cache 0 relays_now relays_now-Reached

relaying-Reached : Reached (record {
  state = relays_now.state;
  live = [] ++ newest relays_now.live ∷ [];
  polling = relays_now.polling;
})
relaying-Reached =
    subst
      (λ (live : List Live).
        Reached (record { state = relays_now.state; live = live; polling = relays_now.polling }))
      relays_now-live.0 relays_now-Reached

Reach-Relayed_example : Relayed (newest relays_now.live)
Reach-Relayed_example =
    Reach-Relayed whole places parse plain hash hash cache 0 relays_now.state []
      (newest relays_now.live) [] relays_now.polling relaying-Reached relays_now-live.1

relayed-Reached : Reached (record {
  state = relayed_now.state;
  live = [] ++ newest relayed_now.live ∷ [];
  polling = relayed_now.polling;
})
relayed-Reached =
    subst
      (λ (live : List Live).
        Reached (record { state = relayed_now.state; live = live; polling = relayed_now.polling }))
      relayed_now-live.0 relayed_now-Reached

Reach-unpunished_example :
    ((l : Limiter ℕ) (now : ℕ)
      → get (drop_ticket whole l relayed_ticket now).metrics 22 ≡ get l.metrics 22)
    × ((l : Limits ℕ) (in_ip : Bool) (threshold now : ℕ) (e : Entry ℕ)
        → ((release_entry whole l relayed_ticket in_ip threshold now e).score ≡ e.score)
          × ((release_entry whole l relayed_ticket in_ip threshold now e).penalty_until
              ≡ e.penalty_until))
Reach-unpunished_example =
    Reach-unpunished whole places parse plain hash hash cache 0 relayed_now.state []
      (newest relayed_now.live) [] relayed_now.polling relayed_ticket relayed-Reached
      relayed_now-live.1 relayed_now-live.2
