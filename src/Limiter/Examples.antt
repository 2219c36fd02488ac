-- ===== src/Limiter/Examples.antt =====
-- gate/src/limiter.rs on concrete data: instances of the theorems, with whole numbers for f64.
use xddp.Prelude.{ℕ, ◌≡◌, refl, [], ◌∷◌, some, true, false, arith}
use xddp.Prelude.Whole.{whole}
use xddp.Config.Limits.{Rate, Rates, Limits}
use xddp.Limiter.Address.{IpAddr, v4, normalize, subnet, ip_eq}
use xddp.Limiter.Table.{lookup, insert, write}
use xddp.Limiter.Table
use xddp.Limiter.Bucket
use xddp.Limiter.Bucket.{Policy, available, consume}
use xddp.Limiter.State.{
  Entry, Limiter, Ticket, Verdict, refused, granted, new_limiter, new_ticket, new_entry, judged,
  first_failing,
}
use xddp.Limiter.Subnets.{same_prefix, subnet-same_prefix}
use xddp.Limiter.Accept.{accept}
use xddp.Limiter.Tickets.{sweep}
use xddp.Limiter.Counts.{view}
use xddp.Limiter.Counts.Verdicts.{LetIn, accept-LetIn, accept-refused, sweep-keeps}
use xddp.Limiter.System.{System, joined, on_accept, Reach, starts, steps}
use xddp.Limiter.System.Held.{held}
use xddp.Limiter.System.Invariant.{Consistent, reached-Consistent}
use xddp.Limiter.System.Caps.{Bounded}
use xddp.Limiter.System.Caps.Reached.{reached-Bounded}

abbrev ten : Rates ℕ
ten =
    let r : Rate ℕ = record { per_second = 10; burst = 10 } in
    record { connect = r; handshake = r; status = r; login = r }

-- One connection for each address.
abbrev pub cfg : Limits ℕ
cfg = record {
  total_sockets = 100;
  prelogin = 50;
  status_connections = 10;
  status_ip = 1;
  separate_status_budget = false;
  preserve_burst = true;
  admitted = 50;
  backend = 50;
  connections_ip = 1;
  connections_prefix = 5;
  prelogin_ip = 1;
  prelogin_prefix = 5;
  ip_entries = 640;
  prefix_entries = 640;
  idle_entry_seconds = 60;
  ipv4_prefix = 24;
  ipv6_prefix = 56;
  ip = ten;
  prefix = ten;
  global = ten;
  mode_multipliers = 1 ∷ 1 ∷ 1 ∷ 1 ∷ [];
  churn_score_threshold = 5;
  churn_prefix_score_threshold = 50;
  churn_half_life_seconds = 60;
  churn_window_seconds = 60;
  penalty_seconds = 30;
}

abbrev pub hash : IpAddr → ℕ
hash ip = 7

abbrev fresh : Limiter ℕ
fresh = new_limiter whole cfg hash hash (λ i. 0) 0

abbrev normal : Policy
normal = record { mode = 0; observe = false; exempt = false }

abbrev peer : IpAddr
peer = v4 3232235777

abbrev first : Verdict Ticket × Limiter ℕ
first = accept whole fresh peer normal 5

abbrev second_try : Verdict Ticket × Limiter ℕ
second_try = accept whole first.1 peer normal 6

abbrev ticket : Ticket
ticket = new_ticket peer (subnet peer 24 56)

first_granted : accept whole fresh peer normal 5 ≡ (granted ticket, first.1)
unfolding accept new_limiter Table.new new_entry judged first_failing available consume lookup
    insert write normalize subnet ip_eq Bucket.new
first_granted = refl

second_refused : accept whole first.1 peer normal 6 ≡ (refused, second_try.1)
unfolding accept new_limiter Table.new new_entry judged first_failing available consume lookup
    insert write normalize subnet ip_eq Bucket.new
second_refused = refl

accept-LetIn_example :
    LetIn fresh
      (normalize peer)
      (subnet (normalize peer) fresh.cfg.ipv4_prefix fresh.cfg.ipv6_prefix)
      ticket
      first.1
accept-LetIn_example = accept-LetIn whole fresh peer normal 5 ticket first.1 first_granted

accept-refused_example :
    (view second_try.1.ip peer ≡ view first.1.ip peer)
    × (view second_try.1.prefix peer ≡ view first.1.prefix peer)
accept-refused_example = accept-refused whole first.1 peer normal 6 second_try.1 second_refused peer

-- The first connection, which then asks for a status.
abbrev one_live : System ℕ
one_live = record { limiter = first.1; live = joined first.0 [] }

abbrev no_tickets : System ℕ
no_tickets = record { limiter = fresh; live = [] }

one_reached : Reach whole cfg hash hash (λ i. 0) 0 one_live
one_reached = steps no_tickets one_live starts (on_accept fresh [] peer normal 5 (omega arith))

one_Consistent : Consistent first.1 (joined first.0 [])
one_Consistent = reached-Consistent whole cfg hash hash (λ i. 0) 0 one_live one_reached

reached-Consistent_example : Consistent first.1 (joined first.0 [])
reached-Consistent_example = reached-Consistent whole cfg hash hash (λ i. 0) 0 one_live one_reached

reached-Bounded_example :
    (first.1.cfg ≡ cfg)
    × Bounded cfg (held true (joined first.0 []) peer) (held false (joined first.0 []) peer)
reached-Bounded_example = reached-Bounded whole cfg hash hash (λ i. 0) 0 one_live one_reached peer

abbrev peer_entry : Entry ℕ
peer_entry = record (new_entry whole ten 5) {
  active = 1;
  pending = 1;
  buckets = record (new_entry whole ten 5).buckets {
    connect = record { tokens = 9; last = 5; rate = record { per_second = 10; burst = 10 } };
  };
}

peer_found : lookup first.1.ip peer ≡ some peer_entry
unfolding accept new_limiter Table.new new_entry judged first_failing available consume lookup
    insert write normalize subnet ip_eq Bucket.new
peer_found = refl

sweep-keeps_example : lookup (sweep whole first.1 7 90).ip peer ≡ some peer_entry
sweep-keeps_example =
    sweep-keeps whole first.1 7 90 peer peer_entry one_Consistent.ip_table peer_found (omega arith)

-- 192.168.1.7 and 192.168.1.200, by 24 bits.
subnet-same_prefix_example :
    ip_eq (subnet (v4 0xc0a80107) 24 56) (subnet (v4 0xc0a801c8) 24 56)
    ≡ same_prefix 24 56 (v4 0xc0a80107) (v4 0xc0a801c8)
subnet-same_prefix_example =
    subnet-same_prefix (v4 0xc0a80107) (v4 0xc0a801c8) 24 56 (omega arith) (omega arith)
      (omega arith) (omega arith)
